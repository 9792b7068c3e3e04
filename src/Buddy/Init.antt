-- ===== src/Buddy/Init.antt =====
-- `kmem_init2` of src/buddy.c: the heap that it leaves.
use pinky_os.Prelude.{
  ℕ, zero, suc, ◌+◌, ◌-◌, ◌*◌, ◌/◌, ◌%◌, ◌^◌, ◌≤◌, ◌<◌, ◌≡◌, refl, sym, ap, ◌∙◌, false, [], arith,
  ltb, get_or, replicate, length-replicate,
}
use native.Mathlib.Nat.{pow-suc, mul-mod_right}
use pinky_os.Outcome.{ok}
use pinky_os.Buddy.{
  any_set, Kmem, available, blkid2mem, empty_order, free_all, marks_below, heap_start, heap_rounds,
  kmem_init2,
}
use pinky_os.Buddy.Areas.{MarksFit, marks_fit}
use pinky_os.Buddy.Marks.{IsSound}
use pinky_os.Buddy.Units.{bit, held, InRange}
use pinky_os.Buddy.Pool.{heap_max, IsPool, kfree_lem}
use pinky_os.Buddy.History.{IsShared, IsMemory}

two_pow_add : (k d : ℕ) → 2 ^ (k + d) ≡ 2 ^ k * 2 ^ d
two_pow_add k zero = (let e : k + 0 ≡ k = omega arith in ap (λ (n : ℕ). 2 ^ n) e ∙ omega arith)
two_pow_add k (suc d) =
    let e : k + suc d ≡ suc (k + d) = omega arith in
    let p = two_pow_add k d in
    let q = pow-suc 2 (k + d) in
    let r = pow-suc 2 d in ap (λ (n : ℕ). 2 ^ n) e ∙ q ∙ rw (p, r) (grind arith)

-- What is a multiple of the largest block's size is one of every block's.
aligned_all : (q k : ℕ) → InRange k → q * 2 ^ 12 % 2 ^ k ≡ 0
aligned_all q k (lo, hi) =
    let e : k + (12 - k) ≡ 12 = omega arith in
    let p : q * 2 ^ 12 ≡ 2 ^ k * (2 ^ (12 - k) * q) =
      (ap (λ (n : ℕ). q * 2 ^ n) (sym e) ∙ rw (two_pow_add k (12 - k)) (grind arith)) in
    ap (λ (n : ℕ). n % 2 ^ k) p ∙ mul-mod_right (2 ^ k) (2 ^ (12 - k) * q)

abbrev empty : ℕ → Kmem
empty start = record { start_heap = start; order = λ k. empty_order }

get_or-replicate : (n i : ℕ) → get_or (replicate n false) i false ≡ false
get_or-replicate zero i = refl
get_or-replicate (suc n) zero = refl
get_or-replicate (suc n) (suc i) = get_or-replicate n i

none_available : (b : ℕ) → available empty_order b ≡ false
none_available b = get_or-replicate 32 (b % 32)

empty-held : (start a : ℕ) → held (empty start) a ≡ 0
unfolding held
empty-held start a = rw (
  none_available (a / 2 ^ 6),
  none_available (a / 2 ^ 7),
  none_available (a / 2 ^ 8),
  none_available (a / 2 ^ 9),
  none_available (a / 2 ^ 10),
  none_available (a / 2 ^ 11),
  none_available (a / 2 ^ 12),
)

empty-IsSound : IsSound empty_order
unfolding any_set
empty-IsSound = record {
  rank = λ i. 0;
  bound = 0;
  linked = record {
    head_in = λ ne. absurd (ne refl);
    next_in = λ i on ne. cc;
    pre_in = λ i on ne. cc;
    first = λ i on e. cc;
    low = λ i on. cc;
    ranked = λ i on. cc;
  };
  sized = λ i. length-replicate 32 false;
}

-- The memory of n of the largest blocks.
abbrev pub first_blocks : (n a : ℕ) → ℕ
first_blocks n a = bit (ltb (a / 2 ^ 12) n)

free_all_lem :
    (km : Kmem) (c n : ℕ)
    → IsPool km
    → ((a : ℕ) → held km a ≡ first_blocks c a)
    → 2 ^ 12 * (c + n) ≤ heap_max
    → (km' : Kmem) × (free_all km (blkid2mem km 12 c) n ≡ ok km')
      × IsPool km'
      × ((a : ℕ) → held km' a ≡ first_blocks (c + n) a)
unfolding free_all
free_all_lem km c zero q h room = (
  km,
  refl,
  q,
  λ a. (let e : c + 0 ≡ c = omega arith in h a ∙ ap (λ (k : ℕ). first_blocks k a) (sym e)),
)
free_all_lem km c (suc n) q h room =
    let (km1, e, q1, m) =
      kfree_lem km 12 c q (omega arith, omega arith) (λ a at. ground (arith, h a))
        (λ a at. omega arith) in
    let (km2, f, q2, g) =
      free_all_lem km1 (c + 1) n q1 (λ a. ground (arith, h a, m.count a)) (omega arith) in
    let next : blkid2mem km 12 c + 2 ^ 12 ≡ blkid2mem km1 12 (c + 1) =
      (let s = m.start in omega arith) in
    (
      km2,
      rw (e, next) f,
      q2,
      λ a.
          (let s : c + 1 + n ≡ c + suc n = omega arith in g a ∙ ap (λ (k : ℕ). first_blocks k a) s),
    )

empty-IsPool : (vstart vend : ℕ) → IsPool (empty (heap_start vstart vend))
unfolding heap_start
empty-IsPool vstart vend = record {
  sound = λ k. empty-IsSound;
  disjoint = λ a. (let e = empty-held (heap_start vstart vend) a in omega arith);
  low = λ a h. absurd (let e = empty-held (heap_start vstart vend) a in omega arith);
  aligned = λ k r.
      aligned_all ((vstart + marks_below ((vend - vstart) / 2 ^ 17 + 1) 7 * 8 + 4095) / 4096) k r;
}

first_blocks-IsMemory : (n : ℕ) → 2 ^ 12 * (0 + n) ≤ heap_max → IsMemory (first_blocks n)
first_blocks-IsMemory n room = record {
  once = λ a. ground arith;
  low = λ a h. (let below : a / 2 ^ 12 < n = ground arith in omega arith);
}

-- kmem_init2 of a memory that the 16-bit links can number does not panic. The marks of the blocks that
-- start below the end of the memory lie apart from each other, at or above the start of the memory and
-- below the heap; the heap reaches to the end of the memory, and each address of it is free once.
pub kmem_init2_lem :
    (vstart vend : ℕ)
    → vend ≤ vstart + (heap_max - 2 ^ 12)
    → (km : Kmem) × (kmem_init2 vstart vend ≡ ok km)
      × MarksFit vstart vend
      × (vend ≤ heap_start vstart vend + 2 ^ 12 * heap_rounds (heap_start vstart vend) vend)
      × IsMemory (first_blocks (heap_rounds (heap_start vstart vend) vend))
      × IsShared
          (first_blocks (heap_rounds (heap_start vstart vend) vend))
          (record { table = km; used = [] })
unfolding kmem_init2 heap_start
kmem_init2_lem vstart vend small =
    let start = heap_start vstart vend in
    let n = heap_rounds start vend in
    let room : 2 ^ 12 * (0 + n) ≤ heap_max = omega arith in
    let (km, e, q, h) =
      free_all_lem (empty start) 0 n (empty-IsPool vstart vend)
        (λ a. empty-held start a ∙ ground arith) room in
    let at : start ≡ start + 2 ^ 12 * 0 = omega arith in
    (
      km,
      ap (λ (m : ℕ). free_all (empty start) m n) at ∙ e,
      marks_fit vstart vend,
      omega arith,
      first_blocks-IsMemory n room,
      record {
        pool = q;
        count = λ a.
            (let c = h a in
              let z : 0 + n ≡ n = omega arith in
              let f = ap (λ (k : ℕ). first_blocks k a) z in omega arith);
        blocks = tt;
      },
    )
