-- ===== src/Buddy/History.antt =====
-- Any sequence of calls of `kmalloc` and `kfree` of src/buddy.c by callers that free what they were
-- given: memory is neither lost nor given out twice.
use pinky_os.Prelude.{
  ℕ, zero, suc, ◌+◌, ◌-◌, ◌*◌, ◌/◌, ◌^◌, ◌≤◌, ◌<◌, ◌≡◌, refl, sym, ap, ◌∙◌, Option, none, some,
  List, [], ◌∷◌, arith, ◌==◌,
}
use mathlib.Core.Path.{subst}
use pinky_os.Outcome.{Outcome, ok, ◌>>=◌}
use pinky_os.Buddy.{Kmem, kmalloc, kfree}
use pinky_os.Buddy.Units.{bit, held, mem2blkid-blkid2mem, InRange}
use pinky_os.Buddy.Alloc.{Allocated}
use pinky_os.Buddy.Pool.{heap_max, IsPool, kmalloc_lem, kfree_lem}

-- A call for a block of an order, or to free the block that was i-th last got of those in use.
pub data Request : Type 0 where
  get : ℕ → Request
  give : ℕ → Request

-- The table and the blocks in use, each an order and an address.
pub record Heap : Type 0 where
  pub table : Kmem
  pub used : List (ℕ × ℕ)

abbrev pub nth : List (ℕ × ℕ) → ℕ → Option (ℕ × ℕ)
nth [] i = none
nth (b ∷ bs) zero = some b
nth (b ∷ bs) (suc i) = nth bs i

abbrev pub drop_at : List (ℕ × ℕ) → ℕ → List (ℕ × ℕ)
drop_at [] i = []
drop_at (b ∷ bs) zero = bs
drop_at (b ∷ bs) (suc i) = b ∷ drop_at bs i

abbrev pub got : (k : ℕ) → List (ℕ × ℕ) → Option ℕ × Kmem → Heap
got k used (none, km) = record { table = km; used = used }
got k used (some mem, km) = record { table = km; used = (k, mem) ∷ used }

abbrev pub gives : Heap → (i : ℕ) → Option (ℕ × ℕ) → Outcome Heap
gives h i none = ok h
gives h i (some (k, mem)) =
    kfree h.table mem k >>= λ km. ok (record { table = km; used = drop_at h.used i })

abbrev pub serve : Request → Heap → Outcome Heap
serve (get k) h = kmalloc h.table k >>= λ out. ok (got k h.used out)
serve (give i) h = gives h i (nth h.used i)

unfoldable pub serve_all : List Request → Heap → Outcome Heap
serve_all [] h = ok h
serve_all (r ∷ rs) h = serve r h >>= serve_all rs

-- How many blocks in use have an address, counted from the start of the heap.
abbrev pub owned : (start a : ℕ) → List (ℕ × ℕ) → ℕ
owned start a [] = 0
owned start a ((k, mem) ∷ bs) = bit (a / 2 ^ k == (mem - start) / 2 ^ k) + owned start a bs

-- A block in use is one of the heap's.
abbrev pub IsBlock : (start : ℕ) → ℕ × ℕ → Type 0
IsBlock start (k, mem) = InRange k × (mem ≡ start + 2 ^ k * ((mem - start) / 2 ^ k))

abbrev pub AllBlocks : (start : ℕ) → List (ℕ × ℕ) → Type 0
AllBlocks start [] = Unit {0}
AllBlocks start (b ∷ bs) = IsBlock start b × AllBlocks start bs

-- The heap is sound, and each address of the memory, once at most, is free or in use.
pub record IsShared (total : ℕ → ℕ) (h : Heap) : Type 0 where
  pub pool : IsPool h.table
  pub count : (a : ℕ) → held h.table a + owned h.table.start_heap a h.used ≡ total a
  pub blocks : AllBlocks h.table.start_heap h.used

-- Memory is a set of addresses that have marks.
pub record IsMemory (total : ℕ → ℕ) : Type 0 where
  pub once : (a : ℕ) → total a ≤ 1
  pub low : (a : ℕ) → 0 < total a → a < heap_max

-- Orders that are asked for are in range.
abbrev pub AllInRange : List Request → Type 0
AllInRange [] = Unit {0}
AllInRange (get k ∷ rs) = InRange k × AllInRange rs
AllInRange (give i ∷ rs) = AllInRange rs

some_inj : (b c : ℕ × ℕ) → some b ≡ some c → b ≡ c
some_inj b c e = ap (λ (o : Option (ℕ × ℕ)). elim o [ none ↦ b | some x ↦ x ]) e

owned-drop_at :
    (start a i k mem : ℕ) (bs : List (ℕ × ℕ))
    → nth bs i ≡ some (k, mem)
    → owned start a bs ≡ bit (a / 2 ^ k == (mem - start) / 2 ^ k) + owned start a (drop_at bs i)
owned-drop_at start a i k mem [] e = cc
owned-drop_at start a zero k mem (b ∷ bs) e =
    ap (λ (x : ℕ × ℕ). bit (a / 2 ^ x.0 == (x.1 - start) / 2 ^ x.0) + owned start a bs)
      (some_inj b (k, mem) e)
owned-drop_at start a (suc i) k mem (b ∷ bs) e =
    (let r = owned-drop_at start a i k mem bs e in omega arith)

nth-IsBlock :
    (start i k mem : ℕ) (bs : List (ℕ × ℕ))
    → AllBlocks start bs
    → nth bs i ≡ some (k, mem)
    → IsBlock start (k, mem)
nth-IsBlock start i k mem [] h e = absurd (ground arith)
nth-IsBlock start zero k mem (b ∷ bs) h e = subst (IsBlock start) (some_inj b (k, mem) e) h.0
nth-IsBlock start (suc i) k mem (b ∷ bs) h e = nth-IsBlock start i k mem bs h.1 e

drop_at-AllBlocks :
    (start i : ℕ) (bs : List (ℕ × ℕ)) → AllBlocks start bs → AllBlocks start (drop_at bs i)
drop_at-AllBlocks start i [] h = tt
drop_at-AllBlocks start zero (b ∷ bs) h = h.1
drop_at-AllBlocks start (suc i) (b ∷ bs) h = (h.0, drop_at-AllBlocks start i bs h.1)

module _ (total : ℕ → ℕ) (memory : IsMemory total) where
  got-IsShared :
      (h : Heap) (k : ℕ) (out : Option ℕ × Kmem)
      → IsShared total h
      → InRange k
      → IsPool out.1
      → Allocated h.table k out
      → IsShared total (got k h.used out)
  got-IsShared h k (none, km) s r q (same, _) = record {
    pool = q;
    count = rw same s.count;
    blocks = rw same s.blocks;
  }
  got-IsShared h k (some mem, km) s r q (blk, at, m) =
      let number : (mem - km.start_heap) / 2 ^ k ≡ blk =
        (rw (at, m.start) (mem2blkid-blkid2mem km k blk)) in
      record {
        pool = q;
        count = λ a.
            (let c = m.count a in
              let t = s.count a in
              let own = ap (λ (n : ℕ). owned n a h.used) m.start in rw number (omega arith));
        blocks = (
          (r, rw number (at ∙ ap (λ (n : ℕ). n + 2 ^ k * blk) m.start)),
          subst (λ n. AllBlocks n h.used) m.start s.blocks,
        );
      }

  gives-IsShared :
      (h : Heap) (i : ℕ) (o : Option (ℕ × ℕ))
      → IsShared total h
      → nth h.used i ≡ o
      → (h' : Heap) × (gives h i o ≡ ok h') × IsShared total h'
  gives-IsShared h i none s e = (h, refl, s)
  gives-IsShared h i (some (k, mem)) s e =
      let start = h.table.start_heap in
      let blk = (mem - start) / 2 ^ k in
      let (r, at) = nth-IsBlock start i k mem h.used s.blocks e in
      let owns = λ (a : ℕ). owned-drop_at start a i k mem h.used e in
      let (km, f, q, m) =
        kfree_lem h.table k blk s.pool r
          (λ a here. ground (arith, s.count a, owns a, memory.once a))
          (λ a here. ground (arith, s.count a, owns a, memory.low a)) in
      let f' : kfree h.table mem k ≡ ok km = (ap (λ (n : ℕ). kfree h.table n k) at ∙ f) in
      (
        record { table = km; used = drop_at h.used i },
        rw f',
        record {
          pool = q;
          count = λ a.
              (let c = m.count a in
                let t = s.count a in
                let owned_a = owns a in
                let own = ap (λ (n : ℕ). owned n a (drop_at h.used i)) m.start in omega arith);
          blocks =
              subst (λ n. AllBlocks n (drop_at h.used i)) (sym m.start)
                (drop_at-AllBlocks start i h.used s.blocks);
        },
      )

  -- Where every address of the memory is either free or in use, any sequence of calls with orders in
  -- range returns without a panic, and this is so again: no address is lost, in two blocks in use,
  -- or in a free block and in use at once.
  pub serve_all-IsShared :
      (rs : List Request) (h : Heap)
      → AllInRange rs
      → IsShared total h
      → (h' : Heap) × (serve_all rs h ≡ ok h') × IsShared total h'
  unfolding serve_all
  serve_all-IsShared [] h r s = (h, refl, s)
  serve_all-IsShared (get k ∷ rs) h r s =
      let (out, e, q, a) = kmalloc_lem h.table k s.pool r.0 in
      let (h', f, t) =
        serve_all-IsShared rs (got k h.used out) r.1 (got-IsShared h k out s r.0 q a) in
      (h', rw (e, f), t)
  serve_all-IsShared (give i ∷ rs) h r s =
      let (h1, e, s1) = gives-IsShared h i (nth h.used i) s refl in
      let (h', f, t) = serve_all-IsShared rs h1 r s1 in (h', rw (e, f), t)
