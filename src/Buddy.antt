-- ===== src/Buddy.antt =====
-- The buddy allocator of src/buddy.c. A block of order k is one of 2^k bytes whose number is its
-- place among those of its order; a mark has the bits of 32 blocks, and the marks with a bit set are
-- in a doubly linked list for each order. `kmem.lock` is held throughout each call.
pub mod Links
pub mod Marks
pub mod Blocks
pub mod Units
pub mod Free
pub mod Alloc
pub mod Pool
pub mod History
pub mod Areas
pub mod Init
pub mod Sizes
mod Tests
use pinky_os.Prelude.{
  ℕ, zero, suc, ◌+◌, ◌-◌, ◌*◌, ◌/◌, ◌%◌, ◌^◌, ◌≤◌, ◌<◌, min, ◌≡◌, refl, sym, ap, ◌∙◌, ◌≢◌, ◌↔◌, ◌⊎◌,
  inl, inr, Bool, true, false, not, ◌&&◌, ◌||◌, Option, none, some, List, [], ◌∷◌, ◌++◌, append-nil,
  append_assoc, arith, ltb, leb, ◌==◌, if◌then◌else◌, eq_of_test, ne_of_test, test_of_ne, eq_self,
  Bool-cases, Option-cases, length, get_or, set, take, replicate, length-append, length-set,
  length-replicate, get_or-set_self, get_or-set_ne, get_or-set,
}
use mathlib.Core.Option
use Prim.Native.Nat.{bit_or}
use pinky_os.Outcome.{Outcome, ok, panic, ◌>>=◌}

-- MAX_ORD and MIN_ORD
abbrev pub max_ord : ℕ
max_ord = 12

abbrev pub min_ord : ℕ
min_ord = 6

-- (uint16) 0xFFFF, the end of a list
abbrev pub nil : ℕ
nil = 0xffff

-- LNKS, PRE_LNK and NEXT_LNK
abbrev pub links : (pre next : ℕ) → ℕ
links pre next = pre * 2 ^ 16 % 2 ^ 32 + next % 2 ^ 16

abbrev pub pre_link : ℕ → ℕ
pre_link lnks = lnks / 2 ^ 16

abbrev pub next_link : ℕ → ℕ
next_link lnks = lnks % 2 ^ 16

-- `struct mark`; `bitmap` lists its 32 bits, the lowest first.
pub record Mark : Type 0 where
  pub lnks : ℕ
  pub bitmap : List Bool

-- `struct order` and the marks of the order, which start at its `offset` in the array of all marks.
pub record Order : Type 0 where
  pub head : ℕ
  pub mark : ℕ → Mark

-- `kmem`; the orders are numbered from `min_ord` to `max_ord`.
pub record Kmem : Type 0 where
  pub start_heap : ℕ
  pub order : ℕ → Order

abbrev pub put_mark : Order → ℕ → Mark → Order
put_mark o i m = record o { mark = λ j. if j == i then m else o.mark j }

abbrev pub put_order : Kmem → ℕ → Order → Kmem
put_order km k o = record km { order = λ j. if j == k then o else km.order j }

abbrev pub blkid2mem : Kmem → (order blk : ℕ) → ℕ
blkid2mem km order blk = km.start_heap + 2 ^ order * blk

abbrev pub mem2blkid : Kmem → (order mem : ℕ) → ℕ
mem2blkid km order mem = (mem - km.start_heap) / 2 ^ order

abbrev pub available : Order → (blk : ℕ) → Bool
available o blk = get_or (o.mark (blk / 32)).bitmap (blk % 32) false

-- `bitmap != 0`
unfoldable pub any_set : List Bool → Bool
any_set [] = false
any_set (b ∷ bs) = b || any_set bs

-- `p->lnks = LNKS(PRE_LNK(p->lnks), next)` and `p->lnks = LNKS(pre, NEXT_LNK(p->lnks))`
abbrev pub set_next : Order → (i next : ℕ) → Order
set_next o i next =
    put_mark o i (record (o.mark i) { lnks = links (pre_link (o.mark i).lnks) next })

abbrev pub set_pre : Order → (i pre : ℕ) → Order
set_pre o i pre = put_mark o i (record (o.mark i) { lnks = links pre (next_link (o.mark i).lnks) })

-- What is before mark i in the list leads past it.
unfoldable pub past_pre : Order → (i : ℕ) → Order
past_pre o i =
    let pre = pre_link (o.mark i).lnks in
    let next = next_link (o.mark i).lnks in
    if not (pre == nil)
    then set_next o pre next
    else if o.head == i
    then record o { head = next }
    else o

-- What is after a removed mark leads back past it.
unfoldable pub past_next : Order → (pre next : ℕ) → Order
past_next o pre next = if not (next == nil) then set_pre o next pre else o

-- The end of `unmark_blk`: mark i leaves the list.
unfoldable pub unlink : Order → (i : ℕ) → Order
unfolding past_pre past_next
unlink o i =
    let o2 = past_next (past_pre o i) (pre_link (o.mark i).lnks) (next_link (o.mark i).lnks) in
    put_mark o2 i (record (o2.mark i) { lnks = links nil nil })

-- The bit of a block in its mark.
abbrev pub put_bit : Order → (blk : ℕ) → Bool → Order
put_bit o blk b =
    let mk = o.mark (blk / 32) in
    put_mark o (blk / 32) (record mk { bitmap = set mk.bitmap (blk % 32) b })

unfoldable pub unmark_blk : Order → (blk : ℕ) → Outcome Order
unfolding any_set
unmark_blk o blk =
    if not (available o blk)
    then panic "double alloc\n"
    else let o' = put_bit o blk false in
      ok (if not (any_set (o'.mark (blk / 32)).bitmap) then unlink o' (blk / 32) else o')

-- The end of `mark_blk`: mark i goes to the head of the list.
unfoldable pub push : Order → (i : ℕ) → Order
push o i =
    let o1 = put_mark o i (record (o.mark i) { lnks = links nil o.head }) in
    let o2 = if not (o.head == nil) then set_pre o1 o.head i else o1 in record o2 { head = i }

unfoldable pub mark_blk : Order → (blk : ℕ) → Outcome Order
unfolding any_set
mark_blk o blk =
    if available o blk
    then panic "double free\n"
    else let o' = put_bit o blk true in
      ok (if not (any_set (o.mark (blk / 32)).bitmap) then push o' (blk / 32) else o')

-- The loop of `get_blk`: the first bit that is set, from bit i on.
unfoldable pub first_set : List Bool → (i : ℕ) → Option ℕ
first_set [] i = none
first_set (b ∷ bs) i = let rest = first_set bs (i + 1) in if b then some i else rest

-- `get_blk`: the block's number.
unfoldable pub get_blk : Order → Outcome (Option ℕ × Order)
unfolding first_set
get_blk o =
    if not (any_set (o.mark o.head).bitmap)
    then panic "empty mark in the list\n"
    else elim (first_set (o.mark o.head).bitmap 0) [
      | none ↦ ok (none, o)
      | some i ↦ unmark_blk o (o.head * 32 + i) >>= λ o'. ok (some (o.head * 32 + i), o')
    ]

-- blk_id ^ 1
abbrev pub buddy : ℕ → ℕ
buddy b = if b % 2 == 0 then b + 1 else b - 1

-- `mark_blk` and `unmark_blk` in the table.
unfoldable pub mark_in : Kmem → (order blk : ℕ) → Outcome Kmem
mark_in km k blk = mark_blk (km.order k) blk >>= λ o. ok (put_order km k o)

unfoldable pub unmark_in : Kmem → (order blk : ℕ) → Outcome Kmem
unmark_in km k blk = unmark_blk (km.order k) blk >>= λ o. ok (put_order km k o)

-- `_kfree` of a block of order `max_ord - gap`.
unfoldable pub free_block : Kmem → (mem order gap : ℕ) → Outcome Kmem
free_block km mem k zero =
    let blk = mem2blkid km k mem in
    if available (km.order k) blk then panic "kfree: double free" else mark_in km k blk
free_block km mem k (suc gap) =
    let blk = mem2blkid km k mem in
    if available (km.order k) blk
    then panic "kfree: double free"
    else if not (available (km.order k) (buddy blk)) || k == max_ord
    then mark_in km k blk
    else unmark_in km k (buddy blk) >>= λ km'.
        free_block km' (blkid2mem km' k (blk - blk % 2)) (k + 1) gap

-- `kmem.orders[order].head != NIL`, then `get_blk`.
unfoldable pub take_block : Kmem → (order : ℕ) → Outcome (Option ℕ × Kmem)
take_block km k =
    get_blk (km.order k) >>= λ (blk, o). ok (Option.map (blkid2mem km k) blk, put_order km k o)

-- The end of `_kmalloc`: the upper half of a parent block is given back.
unfoldable pub split_block : (up : Option ℕ) → Kmem → (order gap : ℕ) → Outcome (Option ℕ × Kmem)
split_block none km k gap = ok (none, km)
split_block (some mem) km k gap = free_block km (mem + 2 ^ k) k gap >>= λ km'. ok (some mem, km')

-- `_kmalloc` of a block of order `max_ord - gap`: its address, or none for NULL.
unfoldable pub alloc_block : Kmem → (order gap : ℕ) → Outcome (Option ℕ × Kmem)
alloc_block km k zero = if not ((km.order k).head == nil) then take_block km k else ok (none, km)
alloc_block km k (suc gap) =
    if not ((km.order k).head == nil)
    then take_block km k
    else alloc_block km (k + 1) gap >>= λ (up, km'). split_block up km' k (suc gap)

unfoldable pub kmalloc : Kmem → (order : ℕ) → Outcome (Option ℕ × Kmem)
kmalloc km k =
    if ltb max_ord k || ltb k min_ord
    then panic "kmalloc: order out of range\n"
    else alloc_block km k (max_ord - k)

unfoldable pub kfree : Kmem → (mem order : ℕ) → Outcome Kmem
kfree km mem k =
    if ltb max_ord k || ltb k min_ord || not (mem % 2 ^ k == 0)
    then panic "kfree: order out of range or memory unaligned\n"
    else free_block km mem k (max_ord - k)

-- PTE_SHIFT
abbrev pub pte_shift : ℕ
pte_shift = 12

unfoldable pub free_page : Kmem → (mem : ℕ) → Outcome Kmem
free_page km mem = kfree km mem pte_shift

unfoldable pub alloc_page : Kmem → Outcome (Option ℕ × Kmem)
alloc_page km = kmalloc km pte_shift

-- `kmem_init2` up to its last loop: no block is available.
abbrev pub empty_order : Order
empty_order = record {
  head = nil;
  mark = λ i. record { lnks = links nil nil; bitmap = replicate 32 false };
}

-- The last loop of `kmem_init2`, in n rounds from an address on.
unfoldable pub free_all : Kmem → (mem n : ℕ) → Outcome Kmem
free_all km mem zero = ok km
free_all km mem (suc n) = kfree km mem max_ord >>= λ km'. free_all km' (mem + 2 ^ max_ord) n

-- The marks of all orders: each order has twice as many as the next.
unfoldable pub marks_below : (n rounds : ℕ) → ℕ
marks_below n zero = 0
marks_below n (suc r) = n + marks_below (n * 2) r

-- `get_mark`, with the `offset` that the rounds of `kmem_init2` before that of order k add up to. The
-- model keeps the marks of each order apart; Buddy/Areas shows that no two have the same place.
abbrev pub get_mark : (vstart vend k idx : ℕ) → ℕ
get_mark vstart vend k idx =
    vstart + (marks_below ((vend - vstart) / 2 ^ (max_ord + 5) + 1) (max_ord - k) + idx) * 8

-- Where the heap starts: the marks' 8 bytes each come first.
unfoldable pub heap_start : (vstart vend : ℕ) → ℕ
unfolding marks_below
heap_start vstart vend =
    let total = marks_below ((vend - vstart) / 2 ^ (max_ord + 5) + 1) 7 in
    (vstart + total * 8 + (2 ^ max_ord - 1)) / 2 ^ max_ord * 2 ^ max_ord

abbrev pub heap_rounds : (start_heap vend : ℕ) → ℕ
heap_rounds start_heap vend = (vend - start_heap + (2 ^ max_ord - 1)) / 2 ^ max_ord

-- `kmem_init2` of the memory from `vstart` to `vend`.
unfoldable pub kmem_init2 : (vstart vend : ℕ) → Outcome Kmem
unfolding free_all
kmem_init2 vstart vend =
    let start_heap = heap_start vstart vend in
    free_all (record { start_heap = start_heap; order = λ k. empty_order }) start_heap
      (heap_rounds start_heap vend)

-- `v |= v >> s`
abbrev pub smear : (v s : ℕ) → ℕ
smear v s = bit_or v (v / 2 ^ s)

-- The loop of `get_order` from bit i on, in n rounds.
unfoldable pub lowest_bit : (v i n : ℕ) → ℕ
lowest_bit v i zero = i
lowest_bit v i (suc n) =
    let rest = lowest_bit v (i + 1) n in if not (v / 2 ^ i % 2 == 0) then i else rest

unfoldable pub get_order : (v : ℕ) → Outcome ℕ
unfolding lowest_bit
get_order v =
    let all = smear (smear (smear (smear (smear ((v + 2 ^ 32 - 1) % 2 ^ 32) 1) 2) 4) 8) 16 in
    let ord = lowest_bit ((all + 1) % 2 ^ 32) 0 32 in
    if ltb ord min_ord
    then ok min_ord
    else if ltb max_ord ord
    then panic "order too big!"
    else ok ord
