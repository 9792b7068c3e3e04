-- ===== src/Buddy/Pool.antt =====
-- `kmalloc` and `kfree` of src/buddy.c on a heap whose free blocks are disjoint and whose marks fit
-- the 16-bit links.
use pinky_os.Prelude.{
  ℕ, zero, suc, ◌+◌, ◌-◌, ◌*◌, ◌/◌, ◌%◌, ◌^◌, ◌≤◌, ◌<◌, ◌≡◌, refl, sym, ap, ◌∙◌, ◌≢◌, inl, inr,
  true, false, Option, none, some, arith, ltb, ◌==◌, eq_of_test, ne_of_test, Bool-cases,
}
use native.Mathlib.Nat.{mul-div_cancel_left, pow-suc, add-mul-mod_self_left}
use pinky_os.Outcome.{Outcome, ok}
use pinky_os.Buddy.{nil, Kmem, blkid2mem, take_block, split_block, alloc_block, kmalloc, kfree}
use pinky_os.Buddy.Units.{two_pow-pos, half, held, InRange, Moves, AllSound}
use pinky_os.Buddy.Free.{Disjoint, Disjoint-Moves, Unheld, free_block_lem}
use pinky_os.Buddy.Alloc.{empty-unavailable, Allocated, take_block_lem}

-- The addresses for which there are marks: nil is no index of a mark.
abbrev pub heap_max : ℕ
heap_max = 64 * (32 * nil)

-- The lists are sound, no address is in two free blocks or above the marks, and the heap is aligned.
pub record IsPool (km : Kmem) : Type 0 where
  pub sound : AllSound km
  pub disjoint : Disjoint km
  pub low : (a : ℕ) → 0 < held km a → a < heap_max
  pub aligned : (k : ℕ) → InRange k → km.start_heap % 2 ^ k ≡ 0

-- Every address of a block has marks.
abbrev pub Below : (k blk : ℕ) → Type 0
Below k blk = (a : ℕ) → a / 2 ^ k ≡ blk → a < heap_max

-- The address of a block, counted from the start of the heap, is in the block.
first_address : (k blk : ℕ) → 2 ^ k * blk / 2 ^ k ≡ blk
first_address k blk = mul-div_cancel_left blk (two_pow-pos k)

big_enough : (d : ℕ) → 64 ≤ 2 ^ (6 + d)
big_enough zero = omega arith
big_enough (suc d) =
    let h = big_enough d in
    let e : 6 + suc d ≡ suc (6 + d) = omega arith in
    let p : 2 ^ (6 + suc d) ≡ 2 ^ (6 + d) * 2 = ap (λ (n : ℕ). 2 ^ n) e ∙ pow-suc 2 (6 + d) in
    omega arith

Below-blk : (k blk : ℕ) → InRange k → Below k blk → blk < 32 * nil
Below-blk k blk (lo, hi) h =
    let e : 6 + (k - 6) ≡ k = omega arith in
    let big : 64 ≤ 2 ^ k =
      (let b = big_enough (k - 6) in let p = ap (λ (n : ℕ). 2 ^ n) e in omega arith) in
    let at = h (2 ^ k * blk) (first_address k blk) in grind arith

twice : (k p : ℕ) → 2 ^ (k + 1) * p ≡ 2 ^ k * (2 * p)
twice k p =
    let e : k + 1 ≡ suc k = omega arith in
    let t : 2 ^ (k + 1) ≡ 2 ^ k * 2 = ap (λ (n : ℕ). 2 ^ n) e ∙ pow-suc 2 k in rw t (grind arith)

upper : (start k p : ℕ) → start + 2 ^ (k + 1) * p + 2 ^ k ≡ start + 2 ^ k * (2 * p + 1)
upper start k p =
    (let t = twice k p in
      let d : 2 ^ k * (2 * p + 1) ≡ 2 ^ k * (2 * p) + 2 ^ k = grind arith in omega arith)

-- A block whose upper half is freed again leaves its lower half.
split :
    (km km1 km2 : Kmem) (k p : ℕ)
    → Moves km1 km (k + 1) p
    → Moves km1 km2 k (2 * p + 1)
    → Moves km2 km k (2 * p)
split km km1 km2 k p m1 m2 = record {
  start = m1.start ∙ sym m2.start;
  count = λ a. ground (arith, m1.count a, m2.count a, half a k);
}

upper-Unheld :
    (km km1 : Kmem) (k p : ℕ) → Disjoint km → Moves km1 km (k + 1) p → Unheld km1 k (2 * p + 1)
upper-Unheld km km1 k p d m a at = ground (arith, half a k, m.count a, d a)

upper-Below : (km km1 : Kmem) (k p : ℕ) → IsPool km → Moves km1 km (k + 1) p → Below k (2 * p + 1)
upper-Below km km1 k p q m a at = q.low a (ground (arith, half a k, m.count a))

pub IsPool-taken :
    (km km1 : Kmem) (k blk : ℕ) → IsPool km → AllSound km1 → Moves km1 km k blk → IsPool km1
IsPool-taken km km1 k blk q s m = record {
  sound = s;
  disjoint = Disjoint-Moves km km1 k blk m q.disjoint;
  low = λ a h. q.low a (ground (arith, m.count a));
  aligned = λ j r. rw (sym m.start) (q.aligned j r);
}

pub IsPool-given :
    (km km1 : Kmem) (k blk : ℕ)
    → IsPool km
    → Unheld km k blk
    → Below k blk
    → AllSound km1
    → Moves km km1 k blk
    → IsPool km1
IsPool-given km km1 k blk q u b s m = record {
  sound = s;
  disjoint = λ a. ground (arith, m.count a, q.disjoint a, u a);
  low = λ a h. ground (arith, m.count a, q.low a, b a);
  aligned = λ j r. rw m.start (q.aligned j r);
}

abbrev Allocates : Kmem → ℕ → Outcome (Option ℕ × Kmem) → Type 0
Allocates km k o = (out : Option ℕ × Kmem) × (o ≡ ok out) × AllSound out.1 × Allocated km k out

taken :
    (km : Kmem) (k : ℕ)
    → IsPool km
    → InRange k
    → (km.order k).head ≢ nil
    → Allocates km k (take_block km k)
taken km k q r ne =
    let (blk, km', t, s, m) = take_block_lem km k q.sound r ne in
    ((some (blkid2mem km k blk), km'), t, s, (blk, refl, m))

split_block_lem :
    (km : Kmem) (k gap : ℕ) (out : Option ℕ × Kmem)
    → IsPool km
    → 6 ≤ k
    → k + gap ≡ 12
    → (km.order k).head ≡ nil
    → AllSound out.1
    → Allocated km (k + 1) out
    → Allocates km k (split_block out.0 out.1 k gap)
unfolding split_block
split_block_lem km k gap (none, km1) q lo top e s (same, full) = (
  (none, km1),
  refl,
  s,
  (
    same,
    λ j blk a b. elim (Bool-cases (j == k)) [
      | inl at ↦
          let i = eq_of_test j k at in
          empty-unavailable (km.order j) blk (q.sound j) (ap (λ (n : ℕ). (km.order n).head) i ∙ e)
      | inr up ↦ (let ne = ne_of_test j k up in full j blk (omega arith) b)
    ],
  ),
)
split_block_lem km k gap (some mem, km1) q lo top e s (p, at, m) =
    let r : InRange k = (lo, omega arith) in
    let u = upper-Unheld km km1 k p q.disjoint m in
    let low = Below-blk k (2 * p + 1) r (upper-Below km km1 k p q m) in
    let (km2, f, s2, m2) =
      free_block_lem km1 k (2 * p + 1) gap s (Disjoint-Moves km km1 (k + 1) p m q.disjoint) u lo top
        low in
    let place : mem + 2 ^ k ≡ blkid2mem km1 k (2 * p + 1) =
      (rw at (upper km.start_heap k p) ∙ ap (λ (n : ℕ). n + 2 ^ k * (2 * p + 1)) m.start) in
    let start : mem ≡ blkid2mem km k (2 * p) =
      (at ∙ ap (λ (n : ℕ). km.start_heap + n) (twice k p)) in
    ((some mem, km2), rw (place, f), s2, (2 * p, start, split km km1 km2 k p m m2))

-- `_kmalloc` of a heap that is sound returns: a block of the order that was free and is not, all
-- else as before; or NULL, the table as before, where no order from k on has a free block.
pub alloc_block_lem :
    (km : Kmem) (k gap : ℕ)
    → IsPool km
    → 6 ≤ k
    → k + gap ≡ 12
    → Allocates km k (alloc_block km k gap)
unfolding alloc_block
alloc_block_lem km k zero q lo top = elim (Bool-cases ((km.order k).head == nil)) [
  | inl e ↦ (
    (none, km),
    rw e,
    q.sound,
    (
      refl,
      λ j blk a b.
          let i : j ≡ k = omega arith in
          empty-unavailable (km.order j) blk (q.sound j)
            (ap (λ (n : ℕ). (km.order n).head) i ∙ eq_of_test (km.order k).head nil e),
    ),
  )
  | inr e ↦ rw e (taken km k q (lo, omega arith) (ne_of_test (km.order k).head nil e))
]
alloc_block_lem km k (suc gap) q lo top = elim (Bool-cases ((km.order k).head == nil)) [
  | inl e ↦
      let (out, f, s, a) = alloc_block_lem km (k + 1) gap q (omega arith) (omega arith) in
      rw (e, f)
        (split_block_lem km k (suc gap) out q lo top (eq_of_test (km.order k).head nil e) s a)
  | inr e ↦ rw e (taken km k q (lo, omega arith) (ne_of_test (km.order k).head nil e))
]

-- `kmalloc` of an order in range returns, and the heap stays sound: it gives a block that was free
-- and is not, all else as before; or NULL, the table as before, where no order from k on has a free
-- block.
pub kmalloc_lem :
    (km : Kmem) (k : ℕ)
    → IsPool km
    → InRange k
    → (out : Option ℕ × Kmem) × (kmalloc km k ≡ ok out) × IsPool out.1 × Allocated km k out
unfolding kmalloc
kmalloc_lem km k q (lo, hi) =
    let (out, e, s, a) = alloc_block_lem km k (12 - k) q lo (omega arith) in
    let not_over : ltb 12 k ≡ false = ground arith in
    let not_under : ltb k 6 ≡ false = ground arith in
    (out, rw (not_over, not_under, e), still out s a, a)
  where
    still : (out : Option ℕ × Kmem) → AllSound out.1 → Allocated km k out → IsPool out.1
    still (none, km1) s (same, _) = rw same q
    still (some mem, km1) s (blk, _, m) = IsPool-taken km km1 k blk q s m

-- `kfree` of a block of which no address is free returns, the heap stays sound, and the addresses
-- that become free are the block's.
pub kfree_lem :
    (km : Kmem) (k blk : ℕ)
    → IsPool km
    → InRange k
    → Unheld km k blk
    → Below k blk
    → (km' : Kmem) × (kfree km (blkid2mem km k blk) k ≡ ok km') × IsPool km' × Moves km km' k blk
unfolding kfree
kfree_lem km k blk q (lo, hi) u b =
    let (km', e, s, m) =
      free_block_lem km k blk (12 - k) q.sound q.disjoint u lo (omega arith)
        (Below-blk k blk (lo, hi) b) in
    let not_over : ltb 12 k ≡ false = ground arith in
    let not_under : ltb k 6 ≡ false = ground arith in
    let whole : (blkid2mem km k blk % 2 ^ k == 0) ≡ true =
      rw (add-mul-mod_self_left km.start_heap (2 ^ k) blk, q.aligned k (lo, hi)) in
    (km', rw (not_over, not_under, whole, e), IsPool-given km km' k blk q u b s m, m)
