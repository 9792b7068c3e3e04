-- ===== src/Bio/Tests.antt =====
-- Runs of src/bio.c, and its theorems at concrete stores.
use pinky_os.Prelude.{ℕ, ◌≡◌, refl, Option, none, some, [], ◌∷◌, arith, ◌==◌, if◌then◌else◌}
use pinky_os.Outcome.{Outcome, ok, panic, waits, ◌>>=◌}
use pinky_os.Ide.{Disk, sector_at, iderw}
use pinky_os.Bio.{Store, binit, find, last_free, bget, bread, validate, sync, fill, bwrite, brelse}
use pinky_os.Bio.Coherence.{IsCoherent, visible, binit-IsCoherent}
use pinky_os.Bio.Get.{Reads, bread_lem}
use pinky_os.Bio.Transfer.{Got-Holding, Holding, fill_lem}

-- Sectors are short here.
abbrev image : Disk
image = (1 ∷ 1 ∷ []) ∷ (2 ∷ 2 ∷ []) ∷ (3 ∷ 3 ∷ []) ∷ []

abbrev booted : Store
unfolding binit
booted = binit image

abbrev session : Outcome Store
session = bread (binit image) 1 1 >>= λ (i, s). bwrite (fill s i (7 ∷ 8 ∷ [])) i >>= λ t. brelse t i

abbrev disk_of : Outcome Store → Option Disk
disk_of (ok s) = some s.disk
disk_of waits = none
disk_of (panic m) = none

session_writes : disk_of session ≡ some ((1 ∷ 1 ∷ []) ∷ (7 ∷ 8 ∷ []) ∷ (3 ∷ 3 ∷ []) ∷ [])
unfolding binit bread bget find last_free validate sync iderw bwrite brelse
session_writes = refl

second_reader_waits : (bread (binit image) 1 1 >>= λ (i, s). bread s 1 1) ≡ waits
unfolding binit bread bget find last_free validate sync iderw
second_reader_waits = refl

image-IsCoherent :
    IsCoherent (binit image) × ((k : ℕ) → visible (binit image) k ≡ sector_at image k)
image-IsCoherent = binit-IsCoherent image

bread_lem_example : Reads (binit image) 1 (bread (binit image) 1 1)
unfolding binit
bread_lem_example = bread_lem (binit image) 1 image-IsCoherent.0 (omega arith)

-- Sector 1 read into slot 0.
abbrev opened : Store
opened = elim (bread (binit image) 1 1) [
  | ok (i, s) ↦ s
  | waits ↦ binit image
  | panic m ↦ binit image
]

opened-Holding : Holding opened 0
unfolding binit bread bget find last_free validate sync iderw
opened-Holding = Got-Holding {k = 1} {out = (0, opened)} bread_lem_example

fill_lem_example :
    Holding (fill opened 0 (7 ∷ [])) 0
    × ((k : ℕ)
        → visible (fill opened 0 (7 ∷ [])) k
          ≡ (if k == (opened.buf 0).sector then 7 ∷ [] else visible opened k))
fill_lem_example = fill_lem (7 ∷ []) opened-Holding
