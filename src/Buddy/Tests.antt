-- ===== src/Buddy/Tests.antt =====
-- Runs of src/buddy.c on a small memory, and the theorems about it applied to it.
use pinky_os.Prelude.{ℕ, ◌+◌, ◌*◌, ◌^◌, ◌≤◌, ◌≡◌, [], ◌∷◌, arith}
use pinky_os.Outcome.{ok}
use pinky_os.Buddy.{Kmem, kmem_init2, heap_start, heap_rounds}
use pinky_os.Buddy.History.{get, give, Heap, serve_all, IsShared, IsMemory, serve_all-IsShared}
use pinky_os.Buddy.Areas.{MarksFit}
use pinky_os.Buddy.Init.{first_blocks, kmem_init2_lem}

-- A memory of three of the largest blocks, of which the marks take the first.
abbrev vstart : ℕ
vstart = 2 ^ 30

abbrev vend : ℕ
vend = vstart + 3 * 2 ^ 12

kmem_init2_lem_example :
    (km : Kmem) × (kmem_init2 vstart vend ≡ ok km)
    × MarksFit vstart vend
    × (vend ≤ heap_start vstart vend + 2 ^ 12 * heap_rounds (heap_start vstart vend) vend)
    × IsMemory (first_blocks (heap_rounds (heap_start vstart vend) vend))
    × IsShared
        (first_blocks (heap_rounds (heap_start vstart vend) vend))
        (record { table = km; used = [] })
kmem_init2_lem_example = kmem_init2_lem vstart vend (omega arith)

abbrev booted :
    (km : Kmem) × (kmem_init2 vstart vend ≡ ok km)
    × MarksFit vstart vend
    × (vend ≤ heap_start vstart vend + 2 ^ 12 * heap_rounds (heap_start vstart vend) vend)
    × IsMemory (first_blocks (heap_rounds (heap_start vstart vend) vend))
    × IsShared
        (first_blocks (heap_rounds (heap_start vstart vend) vend))
        (record { table = km; used = [] })
booted = kmem_init2_lem vstart vend (omega arith)

abbrev fresh : Heap
fresh = record { table = booted.0; used = [] }

serve_all-IsShared_example :
    (h : Heap) × (serve_all (get 6 ∷ get 12 ∷ give 1 ∷ []) fresh ≡ ok h)
    × IsShared (first_blocks (heap_rounds (heap_start vstart vend) vend)) h
serve_all-IsShared_example =
    serve_all-IsShared (first_blocks (heap_rounds (heap_start vstart vend) vend)) booted.4
      (get 6 ∷ get 12 ∷ give 1 ∷ []) fresh
      ((omega arith, omega arith), ((omega arith, omega arith), tt)) booted.5
