-- ===== src/Buddy/Blocks.antt =====
-- `mark_blk`, `unmark_blk` and `get_blk` of src/buddy.c on an order whose marks are sound.
use pinky_os.Prelude.{
  ℕ, ◌+◌, ◌*◌, ◌/◌, ◌%◌, ◌≤◌, ◌<◌, ◌≡◌, refl, sym, ap, ◌∙◌, inl, inr, Bool, true, false, List,
  arith, ◌==◌, if◌then◌else◌, eq_self, Bool-cases, length, get_or, set, length-set,
}
use pinky_os.Outcome.{ok}
use pinky_os.Buddy.{
  nil, pre_link, next_link, Order, available, any_set, unlink, put_bit, unmark_blk, push, mark_blk,
}
use pinky_os.Buddy.Links.{Chain, IsLinked, pushed, pushed-IsLinked, unlinked-IsLinked, neighbours}
use pinky_os.Buddy.Marks.{
  chain, IsSound, any_set-get_or, any_set-set, IsLinked-alike, available-put_bit, push-mark,
  unlink-mark,
}

-- Another order's marks, with the same bits.
same_bits :
    (o p : Order) (b : ℕ)
    → ((j : ℕ) → (p.mark j).bitmap ≡ (o.mark j).bitmap)
    → available p b ≡ available o b
same_bits o p b h = ap (λ (bm : List Bool). get_or bm (b % 32) false) (h (b / 32))

-- A new bit changes no link, and only its own mark's bits.
on-put_bit :
    (o : Order) (blk j : ℕ) (v : Bool)
    → any_set ((put_bit o blk v).mark j).bitmap ≡ (
        if j == blk / 32
        then any_set (set (o.mark (blk / 32)).bitmap (blk % 32) v)
        else any_set (o.mark j).bitmap)
on-put_bit o blk j v = elim (Bool-cases (j == blk / 32)) [ inl e ↦ rw e | inr e ↦ rw e ]

lnks-put_bit :
    (o : Order) (blk j : ℕ) (v : Bool) → ((put_bit o blk v).mark j).lnks ≡ (o.mark j).lnks
lnks-put_bit o blk j v = ground (arith, ap (λ (k : ℕ). (o.mark k).lnks) {x = j} {y = blk / 32})

sized-put_bit :
    (o : Order) (blk j : ℕ) (v : Bool)
    → ((i : ℕ) → length (o.mark i).bitmap ≡ 32)
    → length ((put_bit o blk v).mark j).bitmap ≡ 32
sized-put_bit o blk j v h =
    ground (arith, h j, h (blk / 32), length-set (o.mark (blk / 32)).bitmap (blk % 32) v)

head-push : (o : Order) (i : ℕ) → i ≡ (push o i).head
unfolding push
head-push o i = refl

pre_low : (c : Chain) (i : ℕ) → IsLinked c → c.on i ≡ true → c.pv i ≤ nil
pre_low c i l on = let pre = l.pre_in i on in let low = l.low (c.pv i) in ground arith

-- The blocks of one order after a change of one.
pub record Changed (o : Order) (blk : ℕ) (v : Bool) (o' : Order) : Type 0 where
  pub sound : IsSound o'
  pub bits : (b : ℕ) → available o' b ≡ (if b == blk then v else available o b)

module _ (o : Order) (blk : ℕ) (s : IsSound o) where
  -- The mark keeps its place in the list, or out of it.
  kept :
      (v : Bool)
      → any_set (set (o.mark (blk / 32)).bitmap (blk % 32) v) ≡ any_set (o.mark (blk / 32)).bitmap
      → Changed o blk v (put_bit o blk v)
  kept v same = record {
    sound = record {
      rank = s.rank;
      bound = s.bound;
      linked =
          IsLinked-alike s.linked refl
            (λ i. ground (
              arith,
              on-put_bit o blk i v,
              ap (λ (k : ℕ). any_set (o.mark k).bitmap) {x = i} {y = blk / 32},
            ))
            (λ i. ap next_link (sym (lnks-put_bit o blk i v)))
            (λ i. ap pre_link (sym (lnks-put_bit o blk i v)));
      sized = λ i. sized-put_bit o blk i v s.sized;
    };
    bits = λ b. available-put_bit o blk b v (s.sized (blk / 32));
  }

  -- The mark goes to the head.
  entered :
      any_set (o.mark (blk / 32)).bitmap ≡ false
      → blk < 32 * nil
      → Changed o blk true (push (put_bit o blk true) (blk / 32))
  entered off low =
      let i = blk / 32 in
      let p = put_bit o blk true in
      let size = s.sized i in
      let set_on = any_set-set (o.mark i).bitmap (blk % 32) (omega arith) in
      let in_list = s.linked.head_in in
      let head_low = s.linked.low o.head in
      let at = λ (j : ℕ).
        push-mark p i j (omega arith) (ground arith)
          (λ e. ground (arith, ap (λ (k : ℕ). any_set (o.mark k).bitmap) e)) in
      record {
        sound = record {
          rank = (pushed (chain o s.rank s.bound) i).rank;
          bound = s.bound + 1;
          linked =
              IsLinked-alike (pushed-IsLinked (chain o s.rank s.bound) i s.linked off (omega arith))
                (head-push p i)
                (λ j. ground (arith, ap any_set (at j).0, on-put_bit o blk j true, set_on))
                (λ j. ground (arith, (at j).1, ap next_link (lnks-put_bit o blk j true)))
                (λ j. ground (arith, (at j).2, ap pre_link (lnks-put_bit o blk j true)));
          sized = λ j. ap length (at j).0 ∙ sized-put_bit o blk j true s.sized;
        };
        bits = λ b.
            same_bits p (push p i) b (λ j. (at j).0) ∙ available-put_bit o blk b true (s.sized i);
      }

  -- The mark leaves the list.
  left_list :
      any_set (o.mark (blk / 32)).bitmap ≡ true
      → any_set (set (o.mark (blk / 32)).bitmap (blk % 32) false) ≡ false
      → Changed o blk false (unlink (put_bit o blk false) (blk / 32))
  left_list was now =
      let i = blk / 32 in
      let p = put_bit o blk false in
      let lnk = λ (j : ℕ). sym (lnks-put_bit o blk j false) in
      let c : Chain = record {
        head = o.head;
        on = λ j. any_set (o.mark j).bitmap;
        nx = λ j. next_link (p.mark j).lnks;
        pv = λ j. pre_link (p.mark j).lnks;
        rank = s.rank;
        bound = s.bound;
      } in
      let l : IsLinked c =
        IsLinked-alike s.linked refl (λ j. refl) (λ j. ap next_link (lnk j))
          (λ j. ap pre_link (lnk j)) in
      let only = neighbours c i l was in
      let small = pre_low c i l was in
      let at = λ (j : ℕ).
        unlink-mark p i j only.0 only.1 small (λ ne. pre_low c (c.pv i) l (l.pre_in i was ne).0)
          only.2 in
      record {
        sound = record {
          rank = s.rank;
          bound = s.bound;
          linked =
              IsLinked-alike (unlinked-IsLinked c i l was) (sym (at i).3)
                (λ j. ground (arith, ap any_set (at j).0, on-put_bit o blk j false))
                (λ j. sym (at j).1) (λ j. sym (at j).2);
          sized = λ j. ap length (at j).0 ∙ sized-put_bit o blk j false s.sized;
        };
        bits = λ b.
            same_bits p (unlink p i) b (λ j. (at j).0)
            ∙ available-put_bit o blk b false (s.sized i);
      }

-- `mark_blk` of a block that is not available makes it so, and no other.
pub mark_blk_lem :
    (o : Order) (blk : ℕ)
    → IsSound o
    → blk < 32 * nil
    → available o blk ≡ false
    → (o' : Order) × (mark_blk o blk ≡ ok o') × Changed o blk true o'
unfolding mark_blk
mark_blk_lem o blk s low off =
    let size = s.sized (blk / 32) in
    elim (Bool-cases (any_set (o.mark (blk / 32)).bitmap)) [
      | inl was ↦ (
        put_bit o blk true,
        rw (off, was),
        kept o blk s true
            (any_set-set (o.mark (blk / 32)).bitmap (blk % 32) (omega arith) ∙ sym was),
      )
      | inr new ↦ (push (put_bit o blk true) (blk / 32), rw (off, new), entered o blk s new low)
    ]

-- `unmark_blk` of a block that is available makes it unavailable, and no other.
pub unmark_blk_lem :
    (o : Order) (blk : ℕ)
    → IsSound o
    → available o blk ≡ true
    → (o' : Order) × (unmark_blk o blk ≡ ok o') × Changed o blk false o'
unfolding unmark_blk
unmark_blk_lem o blk s on =
    let was = any_set-get_or (o.mark (blk / 32)).bitmap (blk % 32) on in
    let bm = set (o.mark (blk / 32)).bitmap (blk % 32) false in
    elim (Bool-cases (any_set bm)) [
      | inl still ↦ (
        put_bit o blk false,
        rw (on, eq_self (blk / 32), still),
        kept o blk s false (still ∙ sym was),
      )
      | inr last ↦ (
        unlink (put_bit o blk false) (blk / 32),
        rw (on, eq_self (blk / 32), last),
        left_list o blk s was last,
      )
    ]
