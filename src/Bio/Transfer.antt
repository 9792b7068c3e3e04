-- ===== src/Bio/Transfer.antt =====
-- `bwrite` and `brelse` of src/bio.c on a buffer that `bread` returned, and the caller's changes to
-- its bytes in between.
use pinky_os.Prelude.{
  ℕ, ◌<◌, ◌≡◌, refl, sym, ap, ◌∙◌, ◌≢◌, inl, inr, Bool, true, false, not, [], ◌∷◌, arith, ◌==◌,
  if◌then◌else◌, eq_self, length, set, get_or-set_ne,
}
use mathlib.Core.Path.{fun_ext}
use pinky_os.Outcome.{ok}
use pinky_os.Ide.{Block, Buf, Disk, sector_at, iderw}
use pinky_os.Bio.{Store, update, put_buf, remove, sync, fill, bwrite, brelse}
use pinky_os.Bio.Slots.{has, has-front, NoDup-front}
use pinky_os.Bio.Coherence.{IsCoherent, visible, visible_at, visible_out, sector_cases}
use pinky_os.Bio.Get.{Got}
use pinky_os.Bio.Settle.{put-IsCoherent, visible-put, flushed, flush-IsCoherent}

-- A slot whose buffer a process holds, with a sector of the disk in it.
pub record Holding (s : Store) (i : ℕ) : Type 0 where
  pub coherent : IsCoherent s
  pub listed : has i s.mru ≡ true
  pub taken : (s.buf i).busy ≡ true
  pub valid : (s.buf i).valid ≡ true

pub Got-Holding : {s : Store} {k : ℕ} {out : ℕ × Store} → Got s k out → Holding out.1 out.0
Got-Holding g = record {
  coherent = g.coherent;
  listed = g.listed;
  taken = g.taken;
  valid = g.valid;
}

module _ {s : Store} {i : ℕ} (h : Holding s i) where
  pub only_here :
      (j : ℕ) → has j s.mru ≡ true → j ≢ i → (s.buf j).dev ≡ 1 → (s.buf j).sector ≢ (s.buf i).sector
  only_here j hj ne d o =
      ne (h.coherent.unique j i hj h.listed d (h.coherent.in_range i h.listed h.valid).0 o)

  pub in_range : ((s.buf i).dev ≡ 1) × ((s.buf i).sector < length s.disk)
  in_range = h.coherent.in_range i h.listed h.valid

pass {ℓ} : {A : Type ℓ} (x y : A) (b : Bool) → b ≡ true → (if not b then x else y) ≡ y
pass x y b e = rw e

iderw-write :
    (d : Disk) (b : Buf)
    → b.busy ≡ true
    → b.dirty ≡ true
    → b.dev ≡ 1
    → b.sector < length d
    → iderw b d ≡ ok (record b { dirty = false; valid = true }, set d b.sector b.bytes)
unfolding iderw
iderw-write d b u w v r = ground arith

sync-dirty :
    (s : Store) (i : ℕ) (b : Buf)
    → b.busy ≡ true
    → b.dirty ≡ true
    → b.dev ≡ 1
    → b.sector < length s.disk
    → sync (put_buf s i b) i ≡ ok (flushed s i b)
unfolding sync
sync-dirty s i b u w v r =
    let e : sync (put_buf s i b) i ≡ ok (flushed (put_buf s i b) i b) =
      rw (eq_self i, iderw-write s.disk b u w v r) refl in
    e
    ∙ ap (λ f. ok (record s { buf = f; disk = set s.disk b.sector b.bytes }))
        (fun_ext λ j. ground arith)

module _ {s : Store} {i : ℕ} (h : Holding s i) where
  bwrite-flushed : bwrite s i ≡ ok (flushed s i (s.buf i))
  unfolding bwrite
  bwrite-flushed =
      let e =
        sync-dirty s i (record (s.buf i) { dirty = true }) h.taken refl (in_range h).0
          (in_range h).1 in
      pass _ _ (s.buf i).busy h.taken ∙ e

  flushed-visible : (k : ℕ) → visible (flushed s i (s.buf i)) k ≡ visible s k
  flushed-visible k =
      let t = flushed s i (s.buf i) in
      let c' =
        flush-IsCoherent s i (s.buf i) h.coherent h.listed (in_range h).0 (only_here h)
          (in_range h).1 in
      elim (sector_cases t k c') [
        | inl (l, hl, v, d, e) ↦
            let at = visible_at t l c' hl v in
            let old = visible_at s l h.coherent hl in
            ground (arith, at, old, h.valid, ap (visible s) e, ap (visible t) e)
        | inr out ↦
            (let ne = out i h.listed (rw (eq_self i)) in
              rw
                (
                  visible_out t k out,
                  get_or-set_ne s.disk (s.buf i).sector k (s.buf i).bytes []
                      (λ e. ne (rw (eq_self i) e)),
                )
                (sym (visible_out s k (λ j hj v o. ground (arith, out j hj)))))
      ]

-- After `bwrite` the disk and the clean buffer both have the buffer's bytes, no sector is seen to
-- change, and the other sectors of the disk are as they were.
pub record Written (s : Store) (i : ℕ) (t : Store) : Type 0 where
  pub holding : Holding t i
  pub clean : (t.buf i).dirty ≡ false
  pub disk : t.disk ≡ set s.disk (s.buf i).sector (s.buf i).bytes
  pub bytes : (t.buf i).bytes ≡ (s.buf i).bytes
  pub sector : (t.buf i).sector ≡ (s.buf i).sector
  pub mru_kept : t.mru ≡ s.mru
  pub others : (j : ℕ) → j ≢ i → t.buf j ≡ s.buf j
  pub seen : (k : ℕ) → visible t k ≡ visible s k

-- `bwrite` of a buffer that its caller holds never panics, and leaves the store as `Written` says.
pub bwrite_lem :
    {s : Store} {i : ℕ} → Holding s i → (t : Store) × (bwrite s i ≡ ok t) × Written s i t
bwrite_lem {s} {i} h = (
  flushed s i (s.buf i),
  bwrite-flushed h,
  record {
    holding = record {
      coherent =
          flush-IsCoherent s i (s.buf i) h.coherent h.listed (in_range h).0 (only_here h)
            (in_range h).1;
      listed = h.listed;
      taken = rw (eq_self i) h.taken;
      valid = rw (eq_self i);
    };
    clean = rw (eq_self i);
    disk = refl;
    bytes = rw (eq_self i);
    sector = rw (eq_self i);
    mru_kept = refl;
    others = λ j ne. ground arith;
    seen = flushed-visible h;
  },
)

-- The caller's change shows as the sector's contents, and only there.
pub fill_lem :
    {s : Store} {i : ℕ} (bytes : Block)
    → Holding s i
    → Holding (fill s i bytes) i
      × ((k : ℕ)
          → visible (fill s i bytes) k ≡ (if k == (s.buf i).sector then bytes else visible s k))
fill_lem {s} {i} bytes h =
    let b = record (s.buf i) { bytes = bytes } in
    let c' =
      put-IsCoherent s i b h.coherent h.listed h.valid (in_range h).0 (only_here h) (in_range h).1
        (λ d u. absurd (ground (arith, h.taken))) in
    (
      record {
        coherent = c';
        listed = h.listed;
        taken = rw (eq_self i) h.taken;
        valid = rw (eq_self i) h.valid;
      },
      visible-put s i b h.coherent h.listed h.valid (in_range h).0 (only_here h) c'
          (λ ne. absurd (ne refl)),
    )

-- The store that `brelse` leaves.
abbrev pub released : Store → ℕ → Store
released s i = record s {
  mru = i ∷ remove i s.mru;
  buf = update s.buf i (record (s.buf i) { busy = false });
}

module _ {s : Store} {i : ℕ} (h : Holding s i)
    (settled : (s.buf i).dirty ≡ false → (s.buf i).bytes ≡ sector_at s.disk (s.buf i).sector) where
  released-IsCoherent : IsCoherent (released s i)
  released-IsCoherent =
      let c = h.coherent in
      record {
        distinct = NoDup-front i s.mru c.distinct;
        unique = λ j k hj hk dj dk e.
            ground
              (arith, has-front i j s.mru h.listed, has-front i k s.mru h.listed, c.unique j k);
        in_range = λ j hj v. ground (arith, has-front i j s.mru h.listed, c.in_range j);
        clean = λ j hj v d u. ground (arith, has-front i j s.mru h.listed, c.clean j);
        written = λ j hj d. ground (arith, has-front i j s.mru h.listed, c.written j);
      }

  released-visible : (k : ℕ) → visible (released s i) k ≡ visible s k
  released-visible k = elim (sector_cases (released s i) k released-IsCoherent) [
    | inl (l, hl, v, d, e) ↦
        let at = visible_at (released s i) l released-IsCoherent hl v in
        let old = visible_at s l h.coherent in
        ground (
          arith,
          at,
          old,
          has-front i l s.mru h.listed,
          ap (visible s) e,
          ap (visible (released s i)) e,
        )
    | inr out ↦
        visible_out (released s i) k out
        ∙ sym (visible_out s k (λ j hj v o. ground (arith, out j, has-front i j s.mru h.listed)))
  ]

  -- `brelse` of a buffer whose changes are on the disk or marked dirty does not panic. It keeps the
  -- cache coherent, every sector as it is seen, and the disk; the buffer is idle, and is the most
  -- recently used.
  pub brelse_lem :
      (brelse s i ≡ ok (released s i))
      × IsCoherent (released s i)
      × ((k : ℕ) → visible (released s i) k ≡ visible s k)
      × (((released s i).buf i).busy ≡ false)
  unfolding brelse
  brelse_lem =
      (pass _ _ (s.buf i).busy h.taken, released-IsCoherent, released-visible, rw (eq_self i))
