-- ===== src/Buddy/Marks.antt =====
-- `mark_blk` and `unmark_blk` of src/buddy.c: one block's availability changes, and the list of the
-- marks with a bit set stays sound.
use pinky_os.Prelude.{
  ℕ, zero, suc, ◌/◌, ◌%◌, ◌≤◌, ◌<◌, ◌≡◌, ap, ◌≢◌, Bool, true, false, not, ◌&&◌, List, [], ◌∷◌,
  arith, ◌==◌, if◌then◌else◌, length, get_or, set, get_or-set_self, get_or-set_ne,
}
use mathlib.Core.Path.{subst}
use pinky_os.Buddy.{
  past_pre, past_next, nil, pre_link, next_link, Order, available, any_set, unlink, put_bit, push,
}
use pinky_os.Buddy.Links.{Chain, IsLinked, unlinked}

-- The list of an order, for ranks that are given.
abbrev pub chain : Order → (ℕ → ℕ) → ℕ → Chain
chain o rank bound = record {
  head = o.head;
  on = λ i. any_set (o.mark i).bitmap;
  nx = λ i. next_link (o.mark i).lnks;
  pv = λ i. pre_link (o.mark i).lnks;
  rank = rank;
  bound = bound;
}

-- An order's marks have 32 bits each, and its list is linked.
pub record IsSound (o : Order) : Type 0 where
  pub rank : ℕ → ℕ
  pub bound : ℕ
  pub linked : IsLinked (chain o rank bound)
  pub sized : (i : ℕ) → length (o.mark i).bitmap ≡ 32

pub any_set-get_or : (bs : List Bool) (i : ℕ) → get_or bs i false ≡ true → any_set bs ≡ true
unfolding any_set
any_set-get_or [] i h = h
any_set-get_or (b ∷ bs) zero h = ground arith
any_set-get_or (b ∷ bs) (suc i) h = ground (arith, any_set-get_or bs i h)

pub any_set-set : (bs : List Bool) (i : ℕ) → i < length bs → any_set (set bs i true) ≡ true
any_set-set bs i h = any_set-get_or (set bs i true) i (get_or-set_self bs i true false h)

-- Functions of a mark's index may be replaced by equal ones.
pub IsLinked-alike :
    {c : Chain} {head : ℕ} {on : ℕ → Bool} {nx pv : ℕ → ℕ}
    → IsLinked c
    → c.head ≡ head
    → ((i : ℕ) → c.on i ≡ on i)
    → ((i : ℕ) → c.nx i ≡ nx i)
    → ((i : ℕ) → c.pv i ≡ pv i)
    → IsLinked (record { head = head; on = on; nx = nx; pv = pv; rank = c.rank; bound = c.bound })
IsLinked-alike {c} l h o n p =
    subst IsLinked
      (λ k. record {
        head = h k;
        on = λ i. o i k;
        nx = λ i. n i k;
        pv = λ i. p i k;
        rank = c.rank;
        bound = c.bound;
      })
      l

pub available-put_bit :
    (o : Order) (blk b : ℕ) (v : Bool)
    → length (o.mark (blk / 32)).bitmap ≡ 32
    → available (put_bit o blk v) b ≡ (if b == blk then v else available o b)
available-put_bit o blk b v len =
    let bm = (o.mark (blk / 32)).bitmap in
    let here = get_or-set_self bm (blk % 32) v false (omega arith) in
    let there = get_or-set_ne bm (blk % 32) (b % 32) v false in
    ground (
      arith,
      ap (λ (i : ℕ). (o.mark i).bitmap) {x = b / 32} {y = blk / 32},
      ap (get_or (set bm (blk % 32) v)) {x = b % 32} {y = blk % 32},
    )

-- What `push` leaves in each mark.
pub push-mark :
    (o : Order) (i j : ℕ)
    → i < nil
    → o.head ≤ nil
    → o.head ≢ i
    → (((push o i).mark j).bitmap ≡ (o.mark j).bitmap)
      × (next_link ((push o i).mark j).lnks
          ≡ (if j == i then o.head else next_link (o.mark j).lnks))
      × (pre_link ((push o i).mark j).lnks ≡ (
          if j == i
          then nil
          else if not (o.head == nil) && j == o.head
          then i
          else pre_link (o.mark j).lnks))
unfolding push
push-mark o i j h hd ne = (
  ground (
    arith,
    ap (λ (k : ℕ). (o.mark k).bitmap) {x = j} {y = i},
    ap (λ (k : ℕ). (o.mark k).bitmap) {x = j} {y = o.head},
  ),
  ground (arith, ap (λ (k : ℕ). (o.mark k).lnks) {x = j} {y = o.head}),
  ground arith,
)

past_pre-mark :
    (o : Order) (i j : ℕ)
    → (pre_link (o.mark i).lnks ≢ nil → pre_link (o.mark (pre_link (o.mark i).lnks)).lnks ≤ nil)
    → (((past_pre o i).mark j).bitmap ≡ (o.mark j).bitmap)
      × (next_link ((past_pre o i).mark j).lnks ≡ (
          if not (pre_link (o.mark i).lnks == nil) && j == pre_link (o.mark i).lnks
          then next_link (o.mark i).lnks
          else next_link (o.mark j).lnks))
      × (pre_link ((past_pre o i).mark j).lnks ≡ pre_link (o.mark j).lnks)
unfolding past_pre
past_pre-mark o i j deep =
    let at = ap (λ (k : ℕ). o.mark k) {x = j} {y = pre_link (o.mark i).lnks} in
    (ground (arith, at), ground (arith, at), ground (arith, at))

past_next-mark :
    (o : Order) (pre next j : ℕ)
    → pre ≤ nil
    → (((past_next o pre next).mark j).bitmap ≡ (o.mark j).bitmap)
      × (next_link ((past_next o pre next).mark j).lnks ≡ next_link (o.mark j).lnks)
      × (pre_link ((past_next o pre next).mark j).lnks
          ≡ (if not (next == nil) && j == next then pre else pre_link (o.mark j).lnks))
unfolding past_next
past_next-mark o pre next j h =
    let at = ap (λ (k : ℕ). o.mark k) {x = j} {y = next} in
    (ground (arith, at), ground (arith, at), ground (arith, at))

-- What `unlink` leaves in each mark, for a mark whose neighbours are others.
pub unlink-mark :
    (o : Order) (i j : ℕ)
    → pre_link (o.mark i).lnks ≢ i
    → next_link (o.mark i).lnks ≢ i
    → pre_link (o.mark i).lnks ≤ nil
    → (pre_link (o.mark i).lnks ≢ nil → pre_link (o.mark (pre_link (o.mark i).lnks)).lnks ≤ nil)
    → (pre_link (o.mark i).lnks ≢ nil → pre_link (o.mark i).lnks ≢ next_link (o.mark i).lnks)
    → (((unlink o i).mark j).bitmap ≡ (o.mark j).bitmap)
      × (next_link ((unlink o i).mark j).lnks ≡ (unlinked (chain o (λ k. 0) 0) i).nx j)
      × (pre_link ((unlink o i).mark j).lnks ≡ (unlinked (chain o (λ k. 0) 0) i).pv j)
      × ((unlink o i).head ≡ (unlinked (chain o (λ k. 0) 0) i).head)
unfolding unlink
unlink-mark o i j np nn small deep apart =
    let p = pre_link (o.mark i).lnks in
    let n = next_link (o.mark i).lnks in
    let a = past_pre-mark o i j deep in
    let b = past_next-mark (past_pre o i) p n j small in
    let at = ap (λ (k : ℕ). (o.mark k).bitmap) {x = j} {y = i} in
    let ai = past_pre-mark o i i deep in
    let bi = past_next-mark (past_pre o i) p n i small in
    (ground (arith, at), ground arith, ground arith, ground arith)
