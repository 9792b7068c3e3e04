-- ===== src/Log/Session.antt =====
-- The state of an open transaction of src/log.c, over the cache of src/bio.c.
use pinky_os.Prelude.{
  ℕ, ◌+◌, ◌^◌, ◌≤◌, ◌<◌, ◌≡◌, refl, ap, ◌≢◌, true, false, List, [], ◌∷◌, arith, length,
}
use pinky_os.Outcome.{Outcome, ok, ◌>>=◌}
use pinky_os.Ide.{Block, Disk, sector_at}
use pinky_os.Bio.{Store, bread, brelse, fill, is_free}
use pinky_os.Bio.Slots.{has, count}
use pinky_os.Bio.Coherence.{IsCoherent, visible}
use pinky_os.Bio.Rewrite.{Calm}
use pinky_os.Bio.Mark.{Pinned}
use pinky_os.Log.{Log, log_size, log_block, home, log_write}
use pinky_os.Log.Entries.{Once}

-- `bp = bread(dev, k)`, a change of `bp->data`, `log_write(bp)` and `brelse(bp)`.
unfoldable pub alter : Store → Log → (dev k : ℕ) → (Block → Block) → Outcome (Log × Store)
alter s lg dev k change = do
  (i, s) ← bread s dev k
  (lg, s) ← log_write (fill s i (change (s.buf i).bytes)) lg i
  s ← brelse s i
  ok (lg, s)

-- The state in a transaction that began on the disk d0.
pub record Txn (d0 : Disk) (lg : Log) (s : Store) : Type 0 where
  pub coherent : IsCoherent s
  pub idle : (i : ℕ) → has i s.mru ≡ true → (s.buf i).busy ≡ false
  pub free : 10 ≤ count is_free s.buf s.mru + lg.n
  pub dev : lg.dev ≡ 1
  pub active : lg.busy ≡ true
  pub capacity : log_size < lg.size
  pub room : lg.start + log_size < length s.disk
  pub entries : length lg.sectors ≡ log_size
  pub homes : (i : ℕ) → i < lg.n → home lg i < lg.start
  pub words : (i : ℕ) → home lg i < 2 ^ 32
  pub once : Once lg
  pub held : (i : ℕ) → i < lg.n → Pinned s (home lg i)
  pub logged : (i : ℕ) → i < lg.n → sector_at s.disk (log_block lg i) ≡ visible s (home lg i)
  pub log_seen : (k : ℕ) → lg.start ≤ k → visible s k ≡ sector_at s.disk k
  pub below : (k : ℕ) → k ≤ lg.start → sector_at s.disk k ≡ sector_at d0 k
  pub size : length s.disk ≡ length d0
  pub rest :
      (k : ℕ)
      → k < lg.start
      → ((i : ℕ) → i < lg.n → home lg i ≢ k)
      → visible s k ≡ sector_at s.disk k

pub Txn-Calm : {d0 : Disk} {lg : Log} {s : Store} → Txn d0 lg s → lg.n ≤ 8 → Calm s
Txn-Calm t few = record {
  coherent = t.coherent;
  idle = t.idle;
  room = (let f = t.free in omega arith);
}

pub count_fill :
    (one : ℕ × Store) (bytes : Block) (is : List ℕ)
    → count is_free (fill one.1 one.0 bytes).buf is ≡ count is_free one.1.buf is
count_fill one bytes [] = refl
count_fill one bytes (i ∷ is) =
    let free : is_free ((fill one.1 one.0 bytes).buf i) ≡ is_free (one.1.buf i) =
      ground (arith, ap one.1.buf {x = i} {y = one.0}) in
    ground (arith, free, count_fill one bytes is)
