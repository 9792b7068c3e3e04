-- ===== src/Bio/Mark.antt =====
-- A held buffer of src/bio.c marked dirty, and what a sector logged so leaves in the cache.
use pinky_os.Prelude.{ℕ, ◌+◌, ◌≤◌, ◌≡◌, refl, ap, ◌∙◌, ◌≢◌, true, false, arith, eq_self, set}
use pinky_os.Ide.{Block, Buf}
use pinky_os.Bio.{Store, put_buf, is_free}
use pinky_os.Bio.Slots.{has, count}
use pinky_os.Bio.Coherence.{IsCoherent, visible, visible_at}
use pinky_os.Bio.Settle.{put-IsCoherent, visible-put}
use pinky_os.Bio.Transfer.{Holding, only_here, in_range, released}
use pinky_os.Bio.Rewrite.{overlay}

abbrev pub marked : Store → ℕ → Store
marked s i = put_buf s i (record (s.buf i) { dirty = true })

-- Marking a held buffer dirty changes nothing that is seen.
pub mark_lem :
    {s : Store} {i : ℕ}
    → Holding s i
    → Holding (marked s i) i × ((k : ℕ) → visible (marked s i) k ≡ visible s k)
mark_lem {s} {i} h =
    let b : Buf = record (s.buf i) { dirty = true } in
    let c' =
      put-IsCoherent s i b h.coherent h.listed h.valid (in_range h).0 (only_here h) (in_range h).1
        (λ d u. absurd (ground (arith, d))) in
    let see =
      visible-put s i b h.coherent h.listed h.valid (in_range h).0 (only_here h) c'
        (λ ne. absurd (ne refl)) in
    let at = visible_at s i h.coherent h.listed h.valid in
    (
      record {
        coherent = c';
        listed = h.listed;
        taken = rw (eq_self i) h.taken;
        valid = rw (eq_self i) h.valid;
      },
      λ k. see k ∙ ground (arith, at, ap (visible s) {x = k} {y = (s.buf i).sector}),
    )

pub marked-released :
    (s : Store) (i : ℕ)
    → (released (marked s i) i).buf i ≡ record (s.buf i) { busy = false; dirty = true }
marked-released s i = rw (eq_self i)

-- A dirty buffer holds sector k of disk 1.
abbrev pub Pinned : Store → ℕ → Type 0
Pinned s k =
    (i : ℕ) × (has i s.mru ≡ true)
    × ((s.buf i).dirty ≡ true)
    × ((s.buf i).dev ≡ 1)
    × ((s.buf i).sector ≡ k)

-- Sector k holds the bytes in a dirty buffer, sector m on the disk as well, and all is idle again.
pub record Appended (s : Store) (k m : ℕ) (bytes : Block) (t : Store) : Type 0 where
  pub coherent : IsCoherent t
  pub idle : (j : ℕ) → has j t.mru ≡ true → (t.buf j).busy ≡ false
  pub view : (j : ℕ) → visible t j ≡ overlay (overlay (visible s) k bytes) m bytes j
  pub disk : t.disk ≡ set s.disk m bytes
  pub pinned : Pinned t k
  pub kept : (j : ℕ) → j ≢ m → Pinned s j → Pinned t j
  pub room : count is_free s.buf s.mru ≤ count is_free t.buf t.mru + 1
  pub room_again : Pinned s k → count is_free s.buf s.mru ≤ count is_free t.buf t.mru
