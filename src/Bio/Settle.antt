-- ===== src/Bio/Settle.antt =====
-- What putting a buffer in a slot, or writing one to the disk, does to the sectors that are seen
-- through the cache of src/bio.c.
use pinky_os.Prelude.{
  ℕ, ◌<◌, ◌≡◌, ap, ◌≢◌, inl, inr, true, false, [], arith, ◌==◌, if◌then◌else◌, length, set,
  length-set, get_or-set_self, get_or-set_ne,
}
use pinky_os.Ide.{Buf, sector_at}
use pinky_os.Bio.{Store, update, put_buf}
use pinky_os.Bio.Slots.{has}
use pinky_os.Bio.Coherence.{IsCoherent, visible, visible_at, visible_out, sector_cases}

module _ (s : Store) (i : ℕ) (b : Buf) (c : IsCoherent s) (here : has i s.mru ≡ true)
    (valid : b.valid ≡ true) (dev : b.dev ≡ 1)
    (other : (j : ℕ)
      → has j s.mru ≡ true
      → j ≢ i
      → (s.buf j).dev ≡ 1
      → (s.buf j).sector ≢ b.sector) where
  -- The buffer may go to the slot if it is clean only when it agrees with the disk.
  pub put-IsCoherent :
      b.sector < length s.disk
      → (b.dirty ≡ false → b.busy ≡ false → b.bytes ≡ sector_at s.disk b.sector)
      → IsCoherent (put_buf s i b)
  put-IsCoherent range fresh = record {
    distinct = c.distinct;
    unique = λ j k hj hk dj dk e. ground (arith, c.unique j k hj hk, other j hj, other k hk);
    in_range = λ j h v. ground (arith, c.in_range j h);
    clean = λ j h v d u. ground (arith, c.clean j h);
    written = λ j h d. ground (arith, c.written j h);
  }

  -- It then shows as the contents of its sector, and all others are as before.
  pub visible-put :
      IsCoherent (put_buf s i b)
      → ((s.buf i).sector ≢ b.sector → ((s.buf i).dirty ≡ false) × ((s.buf i).busy ≡ false))
      → (k : ℕ) → visible (put_buf s i b) k ≡ (if k == b.sector then b.bytes else visible s k)
  visible-put c' evicted k = elim (sector_cases (put_buf s i b) k c') [
    | inl (l, h, v, d, e) ↦
        let at = visible_at (put_buf s i b) l c' h v in
        let old = visible_at s l c h in
        ground (arith, at, old, other l h, ap (visible s) e, ap (visible (put_buf s i b)) e)
    | inr out ↦ rw (visible_out (put_buf s i b) k out) (elim (sector_cases s k c) [
      | inl (l, h, v, d, e) ↦
          let at = visible_at s l c h v in
          ground (arith, at, out l h, out i here, c.clean l h v, evicted, ap (visible s) e)
      | inr none_old ↦ let at = visible_out s k none_old in ground (arith, at, out i here)
    ])
  ]

-- The disk and the buffer of a slot take the buffer's bytes.
abbrev pub flushed : Store → ℕ → Buf → Store
flushed s i b = record s {
  buf = update s.buf i (record b { dirty = false; valid = true });
  disk = set s.disk b.sector b.bytes;
}

module _ (s : Store) (i : ℕ) (b : Buf) (c : IsCoherent s) (here : has i s.mru ≡ true)
    (dev : b.dev ≡ 1)
    (other : (j : ℕ) → has j s.mru ≡ true → j ≢ i → (s.buf j).dev ≡ 1 → (s.buf j).sector ≢ b.sector)
    (range : b.sector < length s.disk) where
  pub flush-IsCoherent : IsCoherent (flushed s i b)
  flush-IsCoherent = record {
    distinct = c.distinct;
    unique = λ j k hj hk dj dk e. ground (arith, c.unique j k hj hk, other j hj, other k hk);
    in_range = λ j h v. ground (arith, c.in_range j h, length-set s.disk b.sector b.bytes);
    clean = λ j h v d u. ground (
      arith,
      c.clean j h,
      c.in_range j h,
      other j h,
      get_or-set_self s.disk b.sector b.bytes [] range,
      get_or-set_ne s.disk b.sector (s.buf j).sector b.bytes [],
    );
    written = λ j h d. ground (arith, c.written j h);
  }
