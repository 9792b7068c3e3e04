-- ===== src/Buddy/Alloc.antt =====
-- `_kmalloc` of src/buddy.c, with the splitting of blocks.
use pinky_os.Prelude.{
  ℕ, suc, ◌+◌, ◌*◌, ◌/◌, ◌%◌, ◌^◌, ◌≤◌, ◌<◌, ◌≡◌, refl, ap, ◌∙◌, ◌≢◌, inl, inr, Bool, true, false,
  Option, none, some, List, [], ◌∷◌, arith, Bool-cases, length, get_or,
}
use pinky_os.Outcome.{ok}
use pinky_os.Buddy.{
  nil, Order, Kmem, put_order, available, any_set, first_set, get_blk, blkid2mem, take_block,
}
use pinky_os.Buddy.Links.{head-on}
use pinky_os.Buddy.Marks.{chain, IsSound, any_set-get_or}
use pinky_os.Buddy.Blocks.{Changed, unmark_blk_lem}
use pinky_os.Buddy.Units.{held-put, InRange, Moves, AllSound, AllSound-put}

first_set-any_set :
    (bs : List Bool) (j : ℕ)
    → any_set bs ≡ true
    → (i : ℕ) × (first_set bs j ≡ some (j + i)) × (get_or bs i false ≡ true) × (i < length bs)
unfolding first_set any_set
first_set-any_set [] j h = absurd (ground arith)
first_set-any_set (true ∷ bs) j h = (0, ap some (omega arith), refl, omega arith)
first_set-any_set (false ∷ bs) j h =
    let (i, e, g, lt) = first_set-any_set bs (j + 1) h in
    (suc i, e ∙ ap some (omega arith), g, omega arith)

-- `get_blk` of an order whose list is not empty takes out an available block.
get_blk_lem :
    (o : Order)
    → IsSound o
    → o.head ≢ nil
    → (blk : ℕ) × (o' : Order) × (get_blk o ≡ ok (some blk, o'))
      × (available o blk ≡ true)
      × Changed o blk false o'
unfolding get_blk
get_blk_lem o s ne =
    let on = (s.linked.head_in ne).0 in
    let (i, e, g, lt) = first_set-any_set (o.mark o.head).bitmap 0 on in
    let size = s.sized o.head in
    let blk = o.head * 32 + i in
    let at : blk / 32 ≡ o.head = omega arith in
    let off : blk % 32 ≡ i = omega arith in
    let there : available o blk ≡ true =
      (ap (λ (k : ℕ). get_or (o.mark k).bitmap (blk % 32) false) at
        ∙ ap (λ (k : ℕ). get_or (o.mark o.head).bitmap k false) off
        ∙ g) in
    let (o', u, c) = unmark_blk_lem o blk s there in
    let e' : first_set (o.mark o.head).bitmap 0 ≡ some i = (e ∙ ap some (omega arith)) in
    (blk, o', rw (on, e', u), there, c)

-- Where the list is empty no block is available.
pub empty-unavailable : (o : Order) (blk : ℕ) → IsSound o → o.head ≡ nil → available o blk ≡ false
empty-unavailable o blk s e = elim (Bool-cases (available o blk)) [
  | inl on ↦ absurd (
      head-on (chain o s.rank s.bound) s.bound (blk / 32) s.linked
        (any_set-get_or (o.mark (blk / 32)).bitmap (blk % 32) on) (omega arith) e)
  | inr off ↦ off
]

-- What `_kmalloc` comes to: a block that was free and is not, or none where every order from k on
-- has no free block.
abbrev pub Allocated : Kmem → (k : ℕ) → Option ℕ × Kmem → Type 0
Allocated km k (none, km') =
    (km' ≡ km) × ((j blk : ℕ) → k ≤ j → j ≤ 12 → available (km.order j) blk ≡ false)
Allocated km k (some mem, km') = (blk : ℕ) × (mem ≡ blkid2mem km k blk) × Moves km' km k blk

pub take_block_lem :
    (km : Kmem) (k : ℕ)
    → AllSound km
    → InRange k
    → (km.order k).head ≢ nil
    → (blk : ℕ) × (km' : Kmem) × (take_block km k ≡ ok (some (blkid2mem km k blk), km'))
      × AllSound km'
      × Moves km' km k blk
unfolding take_block
take_block_lem km k s r ne =
    let (blk, o, e, on, c) = get_blk_lem (km.order k) (s k) ne in
    (
      blk,
      put_order km k o,
      rw e,
      AllSound-put km k o s c.sound,
      record {
        start = refl;
        count = λ a. ground (
          arith,
          held-put km o a k r,
          c.bits (a / 2 ^ k),
          ap (available (km.order k)) {x = a / 2 ^ k} {y = blk},
        );
      },
    )
