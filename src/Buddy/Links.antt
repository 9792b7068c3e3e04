-- ===== src/Buddy/Links.antt =====
-- The doubly linked lists of marks of src/buddy.c, and what insertion and removal do to them. A
-- mark's rank falls along the list, so that every marked entry can be reached from the head.
use pinky_os.Prelude.{
  ℕ, zero, suc, ◌+◌, ◌≤◌, ◌<◌, ◌≡◌, ap, ◌≢◌, inl, inr, Bool, true, false, not, ◌&&◌, ◌||◌, arith,
  ◌==◌, if◌then◌else◌, eq_of_test, ne_of_test, Bool-cases,
}
use pinky_os.Buddy.{nil}

-- The list as functions of a mark's index: whether it has a bit set, its next and its previous mark.
pub record Chain : Type 0 where
  pub head : ℕ
  pub on : ℕ → Bool
  pub nx : ℕ → ℕ
  pub pv : ℕ → ℕ
  pub rank : ℕ → ℕ
  pub bound : ℕ

-- The marks in the list are those with a bit set, and the links agree.
pub record IsLinked (c : Chain) : Type 0 where
  pub head_in : c.head ≢ nil → (c.on c.head ≡ true) × (c.pv c.head ≡ nil)
  pub next_in :
      (i : ℕ) → c.on i ≡ true → c.nx i ≢ nil → (c.on (c.nx i) ≡ true) × (c.pv (c.nx i) ≡ i)
  pub pre_in :
      (i : ℕ)
      → c.on i ≡ true
      → c.pv i ≢ nil
      → (c.on (c.pv i) ≡ true) × (c.nx (c.pv i) ≡ i) × (c.rank i < c.rank (c.pv i))
  pub first : (i : ℕ) → c.on i ≡ true → c.pv i ≡ nil → c.head ≡ i
  pub low : (i : ℕ) → c.on i ≡ true → i < nil
  pub ranked : (i : ℕ) → c.on i ≡ true → c.rank i < c.bound

-- Mark i, which had no bit set, at the head.
abbrev pub pushed : Chain → ℕ → Chain
pushed c i = record {
  head = i;
  on = λ j. j == i || c.on j;
  nx = λ j. if j == i then c.head else c.nx j;
  pv = λ j. if j == i then nil else if not (c.head == nil) && j == c.head then i else c.pv j;
  rank = λ j. if j == i then c.bound else c.rank j;
  bound = c.bound + 1;
}

pub pushed-IsLinked :
    (c : Chain) (i : ℕ) → IsLinked c → c.on i ≡ false → i < nil → IsLinked (pushed c i)
pushed-IsLinked c i l off h = record {
  head_in = λ ne. ground arith;
  next_in = λ j on ne. ground (
    arith,
    l.low j,
    l.head_in,
    l.next_in j,
    l.first j,
    ap c.on {x = c.nx j} {y = i},
    ap c.on {x = c.head} {y = i},
    ap c.pv {x = c.nx j} {y = c.head},
  );
  pre_in = λ j on ne. ground (
    arith,
    l.head_in,
    l.pre_in j,
    ap c.on {x = c.pv j} {y = i},
    l.ranked j,
    ap c.rank {x = j} {y = c.head},
  );
  first = λ j on e. ground (arith, l.first j, l.low j);
  low = λ j on. ground (arith, l.low j);
  ranked = λ j on. ground (arith, l.ranked j);
}

-- Mark i out of the list, its last bit cleared.
abbrev pub unlinked : Chain → ℕ → Chain
unlinked c i = record {
  head = if not (c.pv i == nil) then c.head else if c.head == i then c.nx i else c.head;
  on = λ j. not (j == i) && c.on j;
  nx = λ j. if j == i then nil else if not (c.pv i == nil) && j == c.pv i then c.nx i else c.nx j;
  pv = λ j. if j == i then nil else if not (c.nx i == nil) && j == c.nx i then c.pv i else c.pv j;
  rank = c.rank;
  bound = c.bound;
}

-- The neighbours of a mark in the list are others, and different ones.
pub neighbours :
    (c : Chain) (i : ℕ)
    → IsLinked c
    → c.on i ≡ true
    → (c.pv i ≢ i) × (c.nx i ≢ i) × (c.pv i ≢ nil → c.pv i ≢ c.nx i)
neighbours c i l here =
    let low = l.low i here in
    let pre = l.pre_in i here in
    let next = l.next_in i here in
    let back = l.pre_in (c.nx i) in
    (
      λ e. ground (arith, ap c.rank e),
      λ e. ground (arith, ap c.rank e, ap c.pv e),
      λ ne e. ground (arith, ap c.rank e),
    )

pub unlinked-IsLinked : (c : Chain) (i : ℕ) → IsLinked c → c.on i ≡ true → IsLinked (unlinked c i)
unlinked-IsLinked c i l here =
    let low = l.low i here in
    let pre = l.pre_in i here in
    let next = l.next_in i here in
    let only = neighbours c i l here in
    let start = l.first i here in
    let at_head = l.head_in in
    record {
      head_in =
          λ ne. ground (arith, ap c.pv {x = c.head} {y = i}, ap c.pv {x = c.head} {y = c.nx i});
      next_in = λ j on ne. ground (
        arith,
        l.low j,
        l.next_in j,
        l.pre_in j,
        ap c.pv {x = c.nx j} {y = i},
        ap c.pv {x = c.nx j} {y = c.nx i},
        ap c.nx {x = j} {y = c.pv i},
      );
      pre_in = λ j on ne. ground (
        arith,
        l.low j,
        l.next_in j,
        l.pre_in j,
        ap c.nx {x = c.pv j} {y = i},
        ap c.nx {x = c.pv j} {y = c.pv i},
        ap c.pv {x = j} {y = c.nx i},
        ap c.rank {x = j} {y = c.nx i},
        l.pre_in (c.nx i),
      );
      first = λ j on e.
          ground (arith, l.low j, l.first j, l.first i here, ap c.pv {x = j} {y = c.nx i});
      low = λ j on. ground (arith, l.low j);
      ranked = λ j on. ground (arith, l.ranked j);
    }

-- A mark with a bit set can be reached: the head is not the end.
pub head-on :
    (c : Chain) (n i : ℕ) → IsLinked c → c.on i ≡ true → c.bound ≤ c.rank i + n → c.head ≢ nil
head-on c zero i l on h e = absurd (let r = l.ranked i on in omega arith)
head-on c (suc n) i l on h e = elim (Bool-cases (c.pv i == nil)) [
  | inl first ↦
      (let f = l.first i on (eq_of_test (c.pv i) nil first) in let b = l.low i on in omega arith)
  | inr later ↦
      let p = l.pre_in i on (ne_of_test (c.pv i) nil later) in
      let higher = p.2 in head-on c n (c.pv i) l p.0 (omega arith) e
]
