-- ===== src/Bio/Get.antt =====
-- `bread` of src/bio.c, on every branch of `bget`.
use pinky_os.Prelude.{
  ℕ, ◌+◌, ◌≤◌, ◌<◌, ◌≡◌, refl, sym, ap, ◌∙◌, ◌≢◌, inl, inr, Bool, true, false, none, some, arith,
  ◌==◌, if◌then◌else◌, eq_of_test, eq_self, Bool-cases, Option-cases, length,
}
use mathlib.Core.Path.{fun_ext, subst}
use pinky_os.Outcome.{Outcome, ok, panic, waits}
use pinky_os.Ide.{Block, Buf, sector_at, iderw}
use pinky_os.Bio.{Store, put_buf, find, last_free, holds, is_free, sync, bget, validate, bread}
use pinky_os.Bio.Slots.{
  has, count, count-update, find-none, find-some, last_free-some, last_free-none,
}
use pinky_os.Bio.Coherence.{IsCoherent, visible, visible_at, visible_out}
use pinky_os.Bio.Settle.{put-IsCoherent, visible-put}

-- A buffer that `bread` returns for sector k of disk 1, and the store it is in.
pub record Got (s : Store) (k : ℕ) (out : ℕ × Store) : Type 0 where
  pub coherent : IsCoherent out.1
  pub listed : has out.0 out.1.mru ≡ true
  pub taken : (out.1.buf out.0).busy ≡ true
  pub was_idle : (s.buf out.0).busy ≡ false
  pub valid : (out.1.buf out.0).valid ≡ true
  pub dev : (out.1.buf out.0).dev ≡ 1
  pub sector : (out.1.buf out.0).sector ≡ k
  pub bytes : (out.1.buf out.0).bytes ≡ visible s k
  pub disk_kept : out.1.disk ≡ s.disk
  pub mru_kept : out.1.mru ≡ s.mru
  pub others : (j : ℕ) → j ≢ out.0 → out.1.buf j ≡ s.buf j
  pub dirty_kept : (out.1.buf out.0).dirty ≡ (s.buf out.0).dirty
  pub evicts : (s.buf out.0).sector ≢ k → (s.buf out.0).dirty ≡ false
  pub seen : (j : ℕ) → visible out.1 j ≡ visible s j
  pub room : count is_free s.buf s.mru ≤ count is_free out.1.buf out.1.mru + 1

-- A process holds the buffer of sector k.
abbrev pub Locked : Store → ℕ → Type 0
Locked s k = (i : ℕ) × (has i s.mru ≡ true) × (holds (s.buf i) 1 k ≡ true) × ((s.buf i).busy ≡ true)

abbrev pub Reads : Store → ℕ → Outcome (ℕ × Store) → Type 0
Reads s k (ok out) = Got s k out
Reads s k waits = Locked s k
Reads s k (panic m) = count is_free s.buf s.mru ≡ 0

-- `iderw` reads a sector into a buffer that is neither valid nor dirty.
abbrev loaded : Store → Buf → Buf
loaded s b = record b { bytes = sector_at s.disk b.sector; valid = true }

true-ne-false : (b : Bool) → b ≡ true → b ≡ false → ⊥
true-ne-false b t f = ground arith

pub one_or_zero : (b : Bool) → (if b then 1 else 0) ≤ 1
one_or_zero true = omega arith
one_or_zero false = omega arith

iderw-read :
    (s : Store) (b : Buf)
    → b.busy ≡ true
    → b.valid ≡ false
    → b.dirty ≡ false
    → b.dev ≡ 1
    → b.sector < length s.disk
    → iderw b s.disk ≡ ok (loaded s b, s.disk)
unfolding iderw
iderw-read s b u v d dev r = ground arith

update_twice : (s : Store) (i : ℕ) (a b : Buf) → put_buf (put_buf s i a) i b ≡ put_buf s i b
update_twice s i a b = ap (λ f. record s { buf = f }) (fun_ext λ j. ground arith)

sync-put :
    (s : Store) (i : ℕ) (b : Buf)
    → b.busy ≡ true
    → b.valid ≡ false
    → b.dirty ≡ false
    → b.dev ≡ 1
    → b.sector < length s.disk
    → sync (put_buf s i b) i ≡ ok (put_buf s i (loaded s b))
unfolding sync
sync-put s i b u v d dev r =
    let e : sync (put_buf s i b) i ≡ ok (put_buf (put_buf s i b) i (loaded s b)) =
      rw (eq_self i, iderw-read s b u v d dev r) refl in
    e ∙ ap ok (update_twice s i b (loaded s b))

validate-valid : (s : Store) (i : ℕ) → (s.buf i).valid ≡ true → validate s i ≡ ok (i, s)
unfolding validate
validate-valid s i v = rw v

validate-invalid :
    (s : Store) (i : ℕ) {t : Store}
    → (s.buf i).valid ≡ false
    → sync s i ≡ ok t
    → validate s i ≡ ok (i, t)
unfolding validate
validate-invalid s i v e = rw (v, e)

validate-put :
    (s : Store) (i : ℕ) (b : Buf)
    → b.busy ≡ true
    → b.valid ≡ false
    → b.dirty ≡ false
    → b.dev ≡ 1
    → b.sector < length s.disk
    → validate (put_buf s i b) i ≡ ok (i, put_buf s i (loaded s b))
validate-put s i b u v d dev r =
    validate-invalid (put_buf s i b) i (rw (eq_self i) v) (sync-put s i b u v d dev r)

bget-locked :
    (s : Store) (k i : ℕ)
    → find s.buf 1 k s.mru ≡ some i
    → (s.buf i).busy ≡ true
    → bget s 1 k ≡ waits
unfolding bget
bget-locked s k i e b = ground arith

bget-found :
    (s : Store) (k i : ℕ)
    → find s.buf 1 k s.mru ≡ some i
    → (s.buf i).busy ≡ false
    → bget s 1 k ≡ ok (i, put_buf s i (record (s.buf i) { busy = true }))
unfolding bget
bget-found s k i e b = ground arith

bget-full :
    (s : Store) (k : ℕ)
    → find s.buf 1 k s.mru ≡ none
    → last_free s.buf s.mru ≡ none
    → bget s 1 k ≡ panic "bget: no buffers"
unfolding bget
bget-full s k e f = ground arith

abbrev recycled : Store → (k i : ℕ) → Buf
recycled s k i = record (s.buf i) { busy = true; valid = false; dirty = false; dev = 1; sector = k }

bget-miss :
    (s : Store) (k i : ℕ)
    → find s.buf 1 k s.mru ≡ none
    → last_free s.buf s.mru ≡ some i
    → bget s 1 k ≡ ok (i, put_buf s i (recycled s k i))
unfolding bget
bget-miss s k i e f = ground arith

-- What settles in a slot is the sector as it was seen, in a busy buffer.
same_if : (t : Bool) (a b : Block) → (t ≡ true → a ≡ b) → (if t then a else b) ≡ b
same_if true a b h = h refl
same_if false a b h = refl

settle :
    (s : Store) (i : ℕ) (b : Buf)
    → IsCoherent s
    → b.sector < length s.disk
    → has i s.mru ≡ true
    → ((j : ℕ) → has j s.mru ≡ true → j ≢ i → (s.buf j).dev ≡ 1 → (s.buf j).sector ≢ b.sector)
    → (s.buf i).busy ≡ false
    → b.busy ≡ true
    → b.valid ≡ true
    → b.dev ≡ 1
    → b.bytes ≡ visible s b.sector
    → b.dirty ≡ (s.buf i).dirty
    → ((s.buf i).sector ≢ b.sector → ((s.buf i).dirty ≡ false) × ((s.buf i).busy ≡ false))
    → Got s b.sector (i, put_buf s i b)
settle s i b c range here other idle u v d bytes kept evicted =
    let c' =
      put-IsCoherent s i b c here v d other range (λ e w. absurd (true-ne-false b.busy u w)) in
    let see = visible-put s i b c here v d other c' evicted in
    record {
      coherent = c';
      listed = here;
      taken = rw (eq_self i) u;
      was_idle = idle;
      valid = rw (eq_self i) v;
      dev = rw (eq_self i) d;
      sector = rw (eq_self i);
      bytes = rw (eq_self i) bytes;
      disk_kept = refl;
      mru_kept = refl;
      others = λ j ne. ground arith;
      dirty_kept = rw (eq_self i) kept;
      evicts = λ ne. (evicted ne).0;
      seen = λ j.
          see j
          ∙ same_if (j == b.sector) b.bytes (visible s j)
              (λ e. bytes ∙ ap (visible s) (sym (eq_of_test j b.sector e)));
      room = omega (
        arith,
        count-update is_free s.buf i b s.mru c.distinct here,
        one_or_zero (is_free (s.buf i)),
        one_or_zero (is_free b),
      );
    }

module _ (s : Store) (k : ℕ) (c : IsCoherent s) (range : k < length s.disk) where
  bread-found :
      (i : ℕ) → find s.buf 1 k s.mru ≡ some i → (s.buf i).busy ≡ false → Reads s k (bread s 1 k)
  unfolding bread
  bread-found i e idle =
      let f = find-some s.buf 1 k s.mru i e in
      let at : (s.buf i).sector ≡ k = ground arith in
      let dev : (s.buf i).dev ≡ 1 = ground arith in
      let b = record (s.buf i) { busy = true } in
      rw (bget-found s k i e idle) (elim (Bool-cases (s.buf i).valid) [
        | inl v ↦ rw (validate-valid (put_buf s i b) i (rw (eq_self i) v)) (
            subst (λ x. Got s x (i, put_buf s i b)) at
              (settle s i b c (rw at range) f.0 (λ j h ne d o. ne (c.unique j i h f.0 d dev o)) idle
                refl v dev (sym (visible_at s i c f.0 v)) refl (λ ne. absurd (ne refl))))
        | inr v ↦
            let d : (s.buf i).dirty ≡ false = ground (arith, c.written i f.0) in
            rw (validate-put s i b refl v d dev (rw at range)) (
              subst (λ x. Got s x (i, put_buf s i (loaded s b))) at
                (settle s i (loaded s b) c (rw at range) f.0
                  (λ j h ne d o. ne (c.unique j i h f.0 d dev o)) idle refl refl dev
                  (sym (visible_out s (s.buf i).sector (unread i f.0 dev v))) refl
                  (λ ne. absurd (ne refl))))
      ])
    where
      unread :
          (i : ℕ)
          → has i s.mru ≡ true
          → (s.buf i).dev ≡ 1
          → (s.buf i).valid ≡ false
          → (j : ℕ) → has j s.mru ≡ true
          → (s.buf j).valid ≡ true
          → (s.buf j).sector ≢ (s.buf i).sector
      unread i h d v j hj vj o = ground (arith, c.unique j i hj h (c.in_range j hj vj).0 d o)

  bread-miss :
      (i : ℕ)
      → find s.buf 1 k s.mru ≡ none
      → last_free s.buf s.mru ≡ some i
      → Reads s k (bread s 1 k)
  unfolding bread
  bread-miss i e f =
      let free = last_free-some s.buf s.mru i f in
      rw (bget-miss s k i e f, validate-put s i (recycled s k i) refl refl refl refl range)
        (settle s i (loaded s (recycled s k i)) c range free.0
          (λ j h ne d o. ground (arith, find-none s.buf 1 k s.mru j e h)) (ground arith) refl refl
          refl
          (sym (
            visible_out s k
              (λ j h v o. ground (arith, find-none s.buf 1 k s.mru j e h, c.in_range j h v))))
          (ground arith) (λ ne. ground arith))

  -- `bread` of a sector of the disk returns a busy, valid buffer with what the sector holds, and
  -- changes no sector as others see it. It waits when a process holds the sector's buffer, and
  -- panics only when no buffer is free to be recycled.
  pub bread_lem : Reads s k (bread s 1 k)
  unfolding bread
  bread_lem = elim (Option-cases (find s.buf 1 k s.mru)) [
    | inr (i, e) ↦ elim (Bool-cases (s.buf i).busy) [
      | inl b ↦ let f = find-some s.buf 1 k s.mru i e in rw (bget-locked s k i e b) (i, f.0, f.1, b)
      | inr b ↦ bread-found i e b
    ]
    | inl e ↦ elim (Option-cases (last_free s.buf s.mru)) [
      | inr (i, f) ↦ bread-miss i e f
      | inl f ↦ rw (bget-full s k e f) (last_free-none s.buf s.mru f)
    ]
  ]
