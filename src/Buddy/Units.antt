-- ===== src/Buddy/Units.antt =====
-- The free memory of src/buddy.c, an address at a time: how many free blocks, of any order, an
-- address lies in, and what `mark_blk` and `unmark_blk` change of it. Addresses count from the start
-- of the heap.
use pinky_os.Prelude.{
  ℕ, zero, suc, ◌+◌, ◌-◌, ◌*◌, ◌/◌, ◌^◌, ◌≤◌, ◌<◌, ◌≡◌, refl, sym, ap, ◌∙◌, inl, inr, Bool, true,
  false, ◌&&◌, arith, ◌==◌, if◌then◌else◌, eq_of_test, ne_of_test, Bool-cases,
}
use native.Mathlib.Nat.{mul-div_cancel_left, div-div-eq-div-mul, pow-suc}
use pinky_os.Outcome.{ok}
use pinky_os.Buddy.{
  nil, Order, Kmem, put_order, available, blkid2mem, mem2blkid, mark_in, unmark_in,
}
use pinky_os.Buddy.Marks.{IsSound}
use pinky_os.Buddy.Blocks.{mark_blk_lem, unmark_blk_lem}

pub two_pow-pos : (k : ℕ) → 0 < 2 ^ k
two_pow-pos zero = omega arith
two_pow-pos (suc k) = (let h = two_pow-pos k in let e = pow-suc 2 k in omega arith)

-- A block of the next order is two blocks.
pub half : (a k : ℕ) → a / 2 ^ (k + 1) ≡ a / 2 ^ k / 2
half a k =
    (let e : k + 1 ≡ suc k = omega arith in ap (λ (n : ℕ). a / 2 ^ n) e)
    ∙ ap (λ (n : ℕ). a / n) (pow-suc 2 k)
    ∙ sym (div-div-eq-div-mul a (2 ^ k) 2)

pub mem2blkid-blkid2mem : (km : Kmem) (k blk : ℕ) → mem2blkid km k (blkid2mem km k blk) ≡ blk
mem2blkid-blkid2mem km k blk =
    (let e : km.start_heap + 2 ^ k * blk - km.start_heap ≡ 2 ^ k * blk = omega arith in
      ap (λ (n : ℕ). n / 2 ^ k) e)
    ∙ mul-div_cancel_left blk (two_pow-pos k)

abbrev pub bit : Bool → ℕ
bit true = 1
bit false = 0

-- How many free blocks of the n orders from k on have the address.
abbrev pub held_from : Kmem → (a k n : ℕ) → ℕ
held_from km a k zero = 0
held_from km a k (suc n) = bit (available (km.order k) (a / 2 ^ k)) + held_from km a (k + 1) n

-- How many free blocks have the address.
unfoldable pub held : Kmem → (a : ℕ) → ℕ
held km a = held_from km a 6 7

-- A change in an order that is not counted.
held_from_out :
    (km : Kmem) (o : Order) (a k j n : ℕ)
    → k < j
    → held_from (put_order km k o) a j n ≡ held_from km a j n
held_from_out km o a k j zero h = refl
held_from_out km o a k j (suc n) h =
    let ne : (j == k) ≡ false = ground arith in
    rw (ne, held_from_out km o a k (j + 1) n (omega arith))

held_from_put :
    (km : Kmem) (o : Order) (a k j n : ℕ)
    → j ≤ k
    → k < j + n
    → held_from (put_order km k o) a j n + bit (available (km.order k) (a / 2 ^ k))
      ≡ held_from km a j n + bit (available o (a / 2 ^ k))
held_from_put km o a k j zero le lt = absurd (omega arith)
held_from_put km o a k j (suc n) le lt = elim (Bool-cases (j == k)) [
  | inl e ↦
      let at = eq_of_test j k e in
      let new = ap (λ (i : ℕ). bit (available o (a / 2 ^ i))) at in
      let old = ap (λ (i : ℕ). bit (available (km.order i) (a / 2 ^ i))) at in
      rw (e, held_from_out km o a k (j + 1) n (omega arith)) (omega arith)
  | inr e ↦
      let ne = ne_of_test j k e in
      let rest = held_from_put km o a k (j + 1) n (omega arith) (omega arith) in rw e (omega arith)
]

-- The orders that blocks have.
abbrev pub InRange : ℕ → Type 0
InRange k = (6 ≤ k) × (k ≤ 12)

pub held-put :
    (km : Kmem) (o : Order) (a k : ℕ)
    → InRange k
    → held (put_order km k o) a + bit (available (km.order k) (a / 2 ^ k))
      ≡ held km a + bit (available o (a / 2 ^ k))
unfolding held
held-put km o a k (lo, hi) = held_from_put km o a k 6 7 lo (omega arith)

-- From the one table to the other, a block becomes free.
pub record Moves (km km' : Kmem) (k blk : ℕ) : Type 0 where
  pub start : km'.start_heap ≡ km.start_heap
  pub count : (a : ℕ) → held km' a ≡ held km a + bit (a / 2 ^ k == blk)

abbrev pub AllSound : Kmem → Type 0
AllSound km = (k : ℕ) → IsSound (km.order k)

pub AllSound-put :
    (km : Kmem) (k : ℕ) (o : Order) → AllSound km → IsSound o → AllSound (put_order km k o)
AllSound-put km k o s t j = elim (Bool-cases (j == k)) [ inl e ↦ rw e t | inr e ↦ rw e (s j) ]

module _ (km : Kmem) (k blk : ℕ) (s : AllSound km) (r : InRange k) where
  pub mark_in_lem :
      blk < 32 * nil
      → available (km.order k) blk ≡ false
      → (km' : Kmem) × (mark_in km k blk ≡ ok km') × AllSound km' × Moves km km' k blk
  unfolding mark_in
  mark_in_lem low off =
      let (o, e, c) = mark_blk_lem (km.order k) blk (s k) low off in
      (
        put_order km k o,
        rw e,
        AllSound-put km k o s c.sound,
        record {
          start = refl;
          count = λ a. ground (
            arith,
            held-put km o a k r,
            c.bits (a / 2 ^ k),
            ap (available (km.order k)) {x = a / 2 ^ k} {y = blk},
          );
        },
      )

  pub unmark_in_lem :
      available (km.order k) blk ≡ true
      → (km' : Kmem) × (unmark_in km k blk ≡ ok km')
        × AllSound km'
        × Moves km' km k blk
        × ((j b : ℕ)
            → available (km'.order j) b
              ≡ (if j == k && b == blk then false else available (km.order j) b))
  unfolding unmark_in
  unmark_in_lem on =
      let (o, e, c) = unmark_blk_lem (km.order k) blk (s k) on in
      (
        put_order km k o,
        rw e,
        AllSound-put km k o s c.sound,
        record {
          start = refl;
          count = λ a. ground (
            arith,
            held-put km o a k r,
            c.bits (a / 2 ^ k),
            ap (available (km.order k)) {x = a / 2 ^ k} {y = blk},
          );
        },
        λ j b. elim (Bool-cases (j == k)) [
          | inl t ↦ rw t (
              c.bits b
              ∙ ap (λ (i : ℕ). if b == blk then false else available (km.order i) b)
                  (sym (eq_of_test j k t)))
          | inr t ↦ rw t
        ],
      )
