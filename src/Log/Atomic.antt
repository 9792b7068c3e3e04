-- ===== src/Log/Atomic.antt =====
-- Transactions of src/log.c as a whole: after a crash, all of the changes are there or none.
use pinky_os.Prelude.{
  ℕ, ◌+◌, ◌^◌, ◌≤◌, ◌<◌, ◌≡◌, refl, ap, ◌∙◌, true, false, List, [], ◌∷◌, arith, ◌==◌, if◌then◌else◌,
  length,
}
use pinky_os.Outcome.{Outcome, ok, ◌>>=◌}
use pinky_os.Ide.{Block, Disk, sector_at}
use pinky_os.Bio.{Store, binit, is_free}
use pinky_os.Bio.Slots.{has, count}
use pinky_os.Bio.Coherence.{IsCoherent, visible}
use pinky_os.Bio.Rewrite.{overlay}
use pinky_os.Ints.{int_at}
use pinky_os.Log.{Log, log_size, home, write_head, install_from, recover}
use pinky_os.Log.Entries.{entered}
use pinky_os.Log.Session.{alter, Txn}
use pinky_os.Log.Transaction.{alter_lem}

-- The changes of one transaction, in order: of each sector, how its bytes change.
abbrev pub Changes : Type 0
Changes = List (ℕ × (Block → Block))

unfoldable pub alter_all : Store → Log → Changes → Outcome (Log × Store)
unfolding alter
alter_all s lg [] = ok (lg, s)
alter_all s lg ((k, change) ∷ cs) = alter s lg 1 k change >>= λ (lg, s). alter_all s lg cs

-- What is seen after the changes.
unfoldable pub changed : (ℕ → Block) → Changes → ℕ → Block
changed view [] j = view j
changed view ((k, change) ∷ cs) j = changed (overlay view k (change (view k))) cs j

-- The sectors of the changes are below a bound.
abbrev pub Below : (bound : ℕ) → Changes → Type 0
Below bound [] = Unit {0}
Below bound ((k, change) ∷ cs) = (k < bound) × Below bound cs

changed_agree :
    (bound : ℕ) (cs : Changes) (u v : ℕ → Block)
    → Below bound cs
    → ((j : ℕ) → j < bound → u j ≡ v j)
    → (j : ℕ) → j < bound
    → changed u cs j ≡ changed v cs j
unfolding changed
changed_agree bound [] u v b h j lt = h j lt
changed_agree bound ((k, change) ∷ cs) u v (low, b) h j lt =
    changed_agree bound cs _ _ b
      (λ i l.
        ap (λ (x : Block). if i == k then x else u i) (ap change (h k low))
        ∙ ap (λ (x : Block). if i == k then change (v k) else x) (h i l))
      j lt

-- What a list of changes leaves.
pub record Altered (d0 : Disk) (lg : Log) (view : ℕ → Block) (cs : Changes) (out : Log × Store)
    : Type 0 where
  pub txn : Txn d0 out.0 out.1
  pub start : out.0.start ≡ lg.start
  pub few : out.0.n ≤ 8
  pub seen : (j : ℕ) → j < lg.start → visible out.1 j ≡ changed view cs j

pub alter_all_lem :
    (d0 : Disk) (lg : Log) (s : Store) (cs : Changes)
    → Txn d0 lg s
    → lg.n + length cs ≤ 8
    → lg.start ≤ 2 ^ 32
    → Below lg.start cs
    → (out : Log × Store) × (alter_all s lg cs ≡ ok out) × Altered d0 lg (visible s) cs out
unfolding alter_all changed
alter_all_lem d0 lg s [] t few word b =
    ((lg, s), refl, record { txn = t; start = refl; few = omega arith; seen = λ j h. refl })
alter_all_lem d0 lg s ((k, change) ∷ cs) t few word (low, b) =
    let (s1, e1, t1, n1, v1) = alter_lem t (omega arith) k low change (omega arith) in
    let (out, e2, a) = alter_all_lem d0 (entered lg k) s1 cs t1 (omega arith) word b in
    (
      out,
      rw (e1, e2),
      record {
        txn = a.txn;
        start = a.start;
        few = a.few;
        seen = λ j h. a.seen j h ∙ changed_agree lg.start cs (visible s1) _ b v1 j h;
      },
    )

-- A log and a cache at the start of a transaction: `begin_trans` has returned, every buffer is free,
-- and the disk holds what is seen.
pub record Begun (lg : Log) (s : Store) : Type 0 where
  pub coherent : IsCoherent s
  pub idle : (i : ℕ) → has i s.mru ≡ true → (s.buf i).busy ≡ false
  pub free : 10 ≤ count is_free s.buf s.mru
  pub dev : lg.dev ≡ 1
  pub active : lg.busy ≡ true
  pub empty : lg.n ≡ 0
  pub capacity : log_size < lg.size
  pub room : lg.start + log_size < length s.disk
  pub word : lg.start ≤ 2 ^ 32
  pub entries : length lg.sectors ≡ log_size
  pub words : (i : ℕ) → home lg i < 2 ^ 32
  pub settled : (k : ℕ) → visible s k ≡ sector_at s.disk k
  pub head_whole : length (sector_at s.disk lg.start) ≡ 512
  pub head_empty : int_at (sector_at s.disk lg.start) 0 ≡ 0

pub Begun-Txn : {lg : Log} {s : Store} → Begun lg s → Txn s.disk lg s
Begun-Txn {lg} {s} b =
    let none_yet : (i : ℕ) → i < lg.n → ⊥ = (λ i h. let z = b.empty in omega arith) in
    record {
      coherent = b.coherent;
      idle = b.idle;
      free = (let f = b.free in omega arith);
      dev = b.dev;
      active = b.active;
      capacity = b.capacity;
      room = b.room;
      entries = b.entries;
      homes = λ i h. absurd (none_yet i h);
      words = b.words;
      once = λ i j h g p. absurd (none_yet i h);
      held = λ i h. absurd (none_yet i h);
      logged = λ i h. absurd (none_yet i h);
      log_seen = λ k h. b.settled k;
      below = λ k h. refl;
      size = refl;
      rest = λ k h far. b.settled k;
    }

-- A crash of the commit after the header is on the disk and m blocks are installed, and recovery.
pub Redone : Log → (s : Store) → (cs : Changes) → (old : Log) → (Log × Store) → Type 0
Redone lg s cs old (lg', t) =
    (m : ℕ)
    → m ≤ lg'.n
    → (s1 s2 : Store) × (out : Log × Store) × (write_head t lg' ≡ ok s1)
      × (install_from s1 lg' 0 m ≡ ok s2)
      × (recover (binit s2.disk) old ≡ ok out)
      × ((k : ℕ) → k < lg.start → visible out.1 k ≡ changed (visible s) cs k)

-- A crash before the header is on the disk, and recovery.
pub Undone : Log → (s : Store) → (old : Log) → (Log × Store) → Type 0
Undone lg s old (lg', t) =
    (out : Log × Store) × (recover (binit t.disk) old ≡ ok out)
    × ((k : ℕ) → k < lg.start → visible out.1 k ≡ visible s k)
