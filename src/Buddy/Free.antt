-- ===== src/Buddy/Free.antt =====
-- `_kfree` of src/buddy.c, with the merging of buddies.
use pinky_os.Prelude.{
  ℕ, zero, suc, ◌+◌, ◌-◌, ◌*◌, ◌/◌, ◌%◌, ◌^◌, ◌≤◌, ◌<◌, ◌≡◌, sym, ap, ◌∙◌, inl, inr, true, false,
  arith, ◌==◌, eq_of_test, ne_of_test, Bool-cases,
}
use native.Mathlib.Nat.{mul-div_cancel_left, pow-suc}
use pinky_os.Outcome.{ok}
use pinky_os.Buddy.{nil, Kmem, available, buddy, blkid2mem, free_block}
use pinky_os.Buddy.Units.{
  two_pow-pos, half, mem2blkid-blkid2mem, bit, held_from, held, InRange, Moves, AllSound,
  mark_in_lem, unmark_in_lem,
}

held_from-available :
    (km : Kmem) (a k j n : ℕ)
    → j ≤ k
    → k < j + n
    → bit (available (km.order k) (a / 2 ^ k)) ≤ held_from km a j n
held_from-available km a k j zero le lt = absurd (omega arith)
held_from-available km a k j (suc n) le lt = elim (Bool-cases (j == k)) [
  | inl e ↦
      let same = ap (λ (i : ℕ). bit (available (km.order i) (a / 2 ^ i))) (eq_of_test j k e) in
      omega arith
  | inr e ↦
      let ne = ne_of_test j k e in
      let rest = held_from-available km a k (j + 1) n (omega arith) (omega arith) in omega arith
]

-- A free block counts at each of its addresses.
pub held-available :
    (km : Kmem) (a k : ℕ) → InRange k → bit (available (km.order k) (a / 2 ^ k)) ≤ held km a
unfolding held
held-available km a k (lo, hi) = held_from-available km a k 6 7 lo (omega arith)

-- No address is in two free blocks.
abbrev pub Disjoint : Kmem → Type 0
Disjoint km = (a : ℕ) → held km a ≤ 1

-- No address of a block is in a free block.
abbrev pub Unheld : Kmem → (k blk : ℕ) → Type 0
Unheld km k blk = (a : ℕ) → a / 2 ^ k ≡ blk → held km a ≡ 0

pub unavailable :
    (km : Kmem) (k blk : ℕ) → InRange k → Unheld km k blk → available (km.order k) blk ≡ false
unavailable km k blk r u =
    let a = 2 ^ k * blk in
    let at : a / 2 ^ k ≡ blk = mul-div_cancel_left blk (two_pow-pos k) in
    let none_there = u a at in
    let h = held-available km a k r in ground (arith, ap (available (km.order k)) at)

-- The parent block starts at the lower of the two buddies.
parent_mem :
    (km : Kmem) (k blk : ℕ) → blkid2mem km k (blk - blk % 2) ≡ blkid2mem km (k + 1) (blk / 2)
parent_mem km k blk =
    let e : k + 1 ≡ suc k = omega arith in
    let p : 2 ^ (k + 1) ≡ 2 ^ k * 2 = ap (λ (n : ℕ). 2 ^ n) e ∙ pow-suc 2 k in
    let b : blk - blk % 2 ≡ 2 * (blk / 2) = omega arith in rw (b, p) (grind arith)

-- Two buddies without the one are the other.
merge :
    (km km1 km2 : Kmem) (k blk : ℕ)
    → Moves km1 km k (buddy blk)
    → Moves km1 km2 (k + 1) (blk / 2)
    → Moves km km2 k blk
merge km km1 km2 k blk m1 m2 = record {
  start = m2.start ∙ sym m1.start;
  count = λ a. ground (arith, m1.count a, m2.count a, half a k);
}

-- Once the free buddy is taken out of the table, the parent block has no free address.
parent-Unheld :
    (km km1 : Kmem) (k blk : ℕ)
    → InRange k
    → Disjoint km
    → Unheld km k blk
    → available (km.order k) (buddy blk) ≡ true
    → Moves km1 km k (buddy blk)
    → Unheld km1 (k + 1) (blk / 2)
parent-Unheld km km1 k blk r d u on m a at = ground (
  arith,
  half a k,
  m.count a,
  d a,
  u a,
  held-available km a k r,
  ap (available (km.order k)) {x = a / 2 ^ k} {y = buddy blk},
)

pub Disjoint-Moves : (km km1 : Kmem) (k blk : ℕ) → Moves km1 km k blk → Disjoint km → Disjoint km1
Disjoint-Moves km km1 k blk m d a = ground (arith, m.count a, d a)

-- `_kfree` of a block of which no address is free, in a table where no address is in two free
-- blocks, does not panic, and the addresses that become free are the block's.
pub free_block_lem :
    (km : Kmem) (k blk gap : ℕ)
    → AllSound km
    → Disjoint km
    → Unheld km k blk
    → 6 ≤ k
    → k + gap ≡ 12
    → blk < 32 * nil
    → (km' : Kmem) × (free_block km (blkid2mem km k blk) k gap ≡ ok km')
      × AllSound km'
      × Moves km km' k blk
unfolding free_block
free_block_lem km k blk zero s d u lo top low =
    let r : InRange k = (lo, omega arith) in
    let off = unavailable km k blk r u in
    let (km', e, t, m) = mark_in_lem km k blk s r low off in
    (km', rw (mem2blkid-blkid2mem km k blk, off, e), t, m)
free_block_lem km k blk (suc gap) s d u lo top low =
    let r : InRange k = (lo, omega arith) in
    let off = unavailable km k blk r u in
    let below : (k == 12) ≡ false = ground arith in
    elim (Bool-cases (available (km.order k) (buddy blk))) [
      | inl on ↦
          let (km1, e1, s1, m1, bits) = unmark_in_lem km k (buddy blk) s r on in
          let (km2, e2, s2, m2) =
            free_block_lem km1 (k + 1) (blk / 2) gap s1 (Disjoint-Moves km km1 k (buddy blk) m1 d)
              (parent-Unheld km km1 k blk r d u on m1) (omega arith) (omega arith) (omega arith) in
          (
            km2,
            rw (mem2blkid-blkid2mem km k blk, off, on, below, e1, parent_mem km1 k blk) e2,
            s2,
            merge km km1 km2 k blk m1 m2,
          )
      | inr alone ↦
          let (km', e, t, m) = mark_in_lem km k blk s r low off in
          (km', rw (mem2blkid-blkid2mem km k blk, off, alone, e), t, m)
    ]
