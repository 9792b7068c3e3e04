-- ===== src/Bio/Coherence.antt =====
-- When the cache of src/bio.c agrees with the disk, and what a reader of a sector sees.
use pinky_os.Prelude.{
  ℕ, zero, suc, ◌<◌, ◌≡◌, ◌≢◌, ◌⊎◌, inl, inr, true, false, Option, none, some, arith, ltb,
  if◌then◌else◌, Bool-cases, Option-cases, length,
}
use pinky_os.Ide.{Block, Disk, sector_at}
use pinky_os.Bio.{link_slots, Store, find, binit}
use pinky_os.Bio.Slots.{has, NoDup, find-none, find-some}

-- Disk 1 is the only one. No two slots hold one block, a valid buffer holds a sector of the disk,
-- and one that is valid, not dirty and in no process's hands holds what the disk has there.
pub record IsCoherent (s : Store) : Type 0 where
  pub distinct : NoDup s.mru
  pub unique :
      (i j : ℕ)
      → has i s.mru ≡ true
      → has j s.mru ≡ true
      → (s.buf i).dev ≡ 1
      → (s.buf j).dev ≡ 1
      → (s.buf i).sector ≡ (s.buf j).sector
      → i ≡ j
  pub in_range :
      (i : ℕ)
      → has i s.mru ≡ true
      → (s.buf i).valid ≡ true
      → ((s.buf i).dev ≡ 1) × ((s.buf i).sector < length s.disk)
  pub clean :
      (i : ℕ)
      → has i s.mru ≡ true
      → (s.buf i).valid ≡ true
      → (s.buf i).dirty ≡ false
      → (s.buf i).busy ≡ false
      → (s.buf i).bytes ≡ sector_at s.disk (s.buf i).sector
  pub written : (i : ℕ) → has i s.mru ≡ true → (s.buf i).dirty ≡ true → (s.buf i).valid ≡ true

-- The contents of a sector for whoever reads it through the cache.
abbrev cached : Store → ℕ → Option ℕ → Block
cached s k none = sector_at s.disk k
cached s k (some i) = if (s.buf i).valid then (s.buf i).bytes else sector_at s.disk k

pub visible : Store → ℕ → Block
visible s k = cached s k (find s.buf 1 k s.mru)

-- A valid buffer shows its bytes as the contents of its sector.
pub visible_at :
    (s : Store) (i : ℕ)
    → IsCoherent s
    → has i s.mru ≡ true
    → (s.buf i).valid ≡ true
    → visible s (s.buf i).sector ≡ (s.buf i).bytes
unfolding visible
visible_at s i c h v =
    let k = (s.buf i).sector in
    elim (Option-cases (find s.buf 1 k s.mru)) [
      | inl e ↦ absurd (ground (arith, find-none s.buf 1 k s.mru i e h, c.in_range i h v))
      | inr (j, e) ↦
          let same : i ≡ j =
            (let f = find-some s.buf 1 k s.mru j e in
              c.unique i j h f.0 (c.in_range i h v).0 (ground arith) (ground arith)) in
          rw (e, ← same, v)
    ]

-- A sector that no valid buffer holds is seen as the disk has it.
pub visible_out :
    (s : Store) (k : ℕ)
    → ((i : ℕ) → has i s.mru ≡ true → (s.buf i).valid ≡ true → (s.buf i).sector ≢ k)
    → visible s k ≡ sector_at s.disk k
unfolding visible
visible_out s k out = elim (Option-cases (find s.buf 1 k s.mru)) [
  | inl e ↦ rw e
  | inr (j, e) ↦ let f = find-some s.buf 1 k s.mru j e in rw e (ground (arith, out j f.0))
]

abbrev pub Held : Store → ℕ → Type 0
Held s k =
    (i : ℕ) × (has i s.mru ≡ true)
    × ((s.buf i).valid ≡ true)
    × ((s.buf i).dev ≡ 1)
    × ((s.buf i).sector ≡ k)

abbrev pub Absent : Store → ℕ → Type 0
Absent s k = (i : ℕ) → has i s.mru ≡ true → (s.buf i).valid ≡ true → (s.buf i).sector ≢ k

-- Either some valid buffer holds a sector, or none does.
pub sector_cases : (s : Store) (k : ℕ) → IsCoherent s → Held s k ⊎ Absent s k
sector_cases s k c = elim (Option-cases (find s.buf 1 k s.mru)) [
  | inl e ↦ inr (λ i h v o. ground (arith, find-none s.buf 1 k s.mru i e h, c.in_range i h v))
  | inr (j, e) ↦
      let f = find-some s.buf 1 k s.mru j e in
      elim (Bool-cases (s.buf j).valid) [
        | inl v ↦ inl (j, f.0, v, ground arith, ground arith)
        | inr v ↦ inr (λ i h w o. ground (arith, c.unique i j h f.0, c.in_range i h w))
      ]
]

binit_has : (i n : ℕ) → has i (link_slots n) ≡ ltb i n
binit_has i zero = ground arith
binit_has i (suc n) = ground (arith, binit_has i n)

binit_distinct : (n : ℕ) → NoDup (link_slots n)
binit_distinct zero = tt
binit_distinct (suc n) = (ground (arith, binit_has n n), binit_distinct n)

-- After `binit` the cache is coherent, and every sector is seen as the disk has it.
pub binit-IsCoherent :
    (d : Disk) → IsCoherent (binit d) × ((k : ℕ) → visible (binit d) k ≡ sector_at d k)
unfolding binit
binit-IsCoherent d = (
  record {
    distinct = binit_distinct 10;
    unique = λ i j h g a b e. absurd (omega arith);
    in_range = λ i h e. cc;
    clean = λ i h e. cc;
    written = λ i h e. cc;
  },
  λ k. visible_out (binit d) k (λ i h e. cc),
)
