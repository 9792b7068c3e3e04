-- ===== src/Buddy/Areas.antt =====
-- Where the marks of the orders lie in the memory of src/buddy.c.
use pinky_os.Prelude.{
  ℕ, zero, suc, ◌+◌, ◌-◌, ◌*◌, ◌/◌, ◌^◌, ◌≤◌, ◌<◌, ◌≡◌, ap, inl, inr, arith, ltb, Bool-cases,
}
use pinky_os.Buddy.{marks_below, heap_start, get_mark}
use pinky_os.Buddy.Units.{InRange}

-- The block b of order k starts in the heap, below the end of the memory.
abbrev pub InHeap : (vstart vend k b : ℕ) → Type 0
InHeap vstart vend k b = heap_start vstart vend + 2 ^ k * b < vend

-- The marks of the blocks of the heap, each for 32 blocks of one order, lie apart, and below the heap.
pub record MarksFit (vstart vend : ℕ) : Type 0 where
  pub below :
      (k b : ℕ)
      → InRange k
      → InHeap vstart vend k b
      → (vstart ≤ get_mark vstart vend k (b / 32))
        × (get_mark vstart vend k (b / 32) + 8 ≤ heap_start vstart vend)
  pub apart :
      (k b k' b' : ℕ)
      → InRange k
      → InRange k'
      → InHeap vstart vend k b
      → InHeap vstart vend k' b'
      → get_mark vstart vend k (b / 32) ≡ get_mark vstart vend k' (b' / 32)
      → (k ≡ k') × (b / 32 ≡ b' / 32)

marks_below_more : (n i : ℕ) → marks_below n i ≤ marks_below n (suc i)
unfolding marks_below
marks_below_more n zero = omega arith
marks_below_more n (suc i) = let h = marks_below_more (n * 2) i in omega arith

marks_below_mono : (n i d : ℕ) → marks_below n i ≤ marks_below n (d + i)
marks_below_mono n i zero =
    (let e = ap (marks_below n) {x = 0 + i} {y = i} (omega arith) in omega arith)
marks_below_mono n i (suc d) =
    let e = ap (marks_below n) {x = suc d + i} {y = suc (d + i)} (omega arith) in
    let h = marks_below_mono n i d in let more = marks_below_more n (d + i) in omega arith

marks_below-le : (n i j : ℕ) → i ≤ j → marks_below n i ≤ marks_below n j
marks_below-le n i j h =
    let e = ap (marks_below n) {x = j - i + i} {y = j} (omega arith) in
    let m = marks_below_mono n i (j - i) in omega arith

-- Each order has enough marks: d is MAX_ORD less the order.
enough :
    (d len b : ℕ)
    → d ≤ 6
    → 2 ^ (12 - d) * b < len
    → marks_below (len / 2 ^ 17 + 1) d + b / 32 < marks_below (len / 2 ^ 17 + 1) (suc d)
unfolding marks_below
enough zero len b r h = omega arith
enough (suc zero) len b r h = omega arith
enough (suc (suc zero)) len b r h = omega arith
enough (suc (suc (suc zero))) len b r h = omega arith
enough (suc (suc (suc (suc zero)))) len b r h = omega arith
enough (suc (suc (suc (suc (suc zero))))) len b r h = omega arith
enough (suc (suc (suc (suc (suc (suc zero)))))) len b r h = omega arith
enough (suc (suc (suc (suc (suc (suc (suc d))))))) len b r h = absurd (omega arith)

total_fits :
    (vstart vend : ℕ)
    → vstart + marks_below ((vend - vstart) / 2 ^ 17 + 1) 7 * 8 ≤ heap_start vstart vend
unfolding heap_start
total_fits vstart vend = omega arith

module _ (vstart vend : ℕ) where
  abbrev marks : ℕ
  marks = (vend - vstart) / 2 ^ 17 + 1

  within :
      (k b : ℕ)
      → InRange k
      → InHeap vstart vend k b
      → marks_below marks (12 - k) + b / 32 < marks_below marks (suc (12 - k))
  within k b (lo, hi) h =
      let total = total_fits vstart vend in
      let e : 12 - (12 - k) ≡ k = omega arith in
      let same : 2 ^ (12 - (12 - k)) * b ≡ 2 ^ k * b = ap (λ (x : ℕ). 2 ^ x * b) e in
      enough (12 - k) (vend - vstart) b (omega arith) (omega arith)

  later :
      (k b k' b' : ℕ)
      → InRange k
      → InRange k'
      → InHeap vstart vend k b
      → InHeap vstart vend k' b'
      → k < k'
      → get_mark vstart vend k' (b' / 32) < get_mark vstart vend k (b / 32)
  later k b k' b' (lo, hi) (lo', hi') h h' lt =
      let w = within k' b' (lo', hi') h' in
      let m = marks_below-le marks (suc (12 - k')) (12 - k) (omega arith) in omega arith

  pub marks_fit : MarksFit vstart vend
  marks_fit = record {
    below = λ k b r h.
        let w = within k b r h in
        let (lo, hi) = r in
        let m = marks_below-le marks (suc (12 - k)) 7 (omega arith) in
        let t = total_fits vstart vend in (omega arith, omega arith);
    apart = λ k b k' b' r r' h h' e. elim (Bool-cases (ltb k k')) [
      | inl l ↦
          absurd
            (let lt : k < k' = ground arith in let q = later k b k' b' r r' h h' lt in omega arith)
      | inr l ↦ elim (Bool-cases (ltb k' k)) [
        | inl l' ↦
            absurd (
              let lt : k' < k = ground arith in let q = later k' b' k b r' r h' h lt in omega arith)
        | inr l' ↦
            let p : k ≡ k' = ground arith in
            let s = ap (λ (x : ℕ). get_mark vstart vend x (b' / 32)) p in (p, omega arith)
      ]
    ];
  }
