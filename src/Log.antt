-- ===== src/Log.antt =====
-- The redo log of src/log.c over the buffer cache: one transaction's blocks are copied into the log
-- area, a header that counts them is written, and they are then installed where they belong.
pub mod Install
pub mod Header
pub mod Recovery
pub mod Redo
pub mod Crash
pub mod Entries
pub mod Session
pub mod Look
pub mod Transaction
pub mod Atomic
mod Tests
use pinky_os.Prelude.{
  ℕ, zero, suc, ◌+◌, ◌-◌, ◌*◌, ◌/◌, ◌%◌, ◌^◌, ◌≤◌, ◌<◌, min, ◌≡◌, refl, sym, ap, ◌∙◌, ◌≢◌, ◌↔◌, ◌⊎◌,
  inl, inr, Bool, true, false, not, ◌&&◌, ◌||◌, Option, none, some, List, [], ◌∷◌, ◌++◌, append-nil,
  append_assoc, arith, ltb, leb, ◌==◌, if◌then◌else◌, eq_of_test, ne_of_test, test_of_ne, eq_self,
  Bool-cases, Option-cases, length, get_or, set, take, replicate, length-append, length-set,
  length-replicate, get_or-set_self, get_or-set_ne, get_or-set,
}
use pinky_os.Outcome.{Outcome, ok, panic, waits, ◌>>=◌}
use pinky_os.Ide.{Block, Buf}
use pinky_os.Bio.{Store, bread, bwrite, brelse, fill, put_buf}
use pinky_os.Ints.{int_at, set_int}

-- LOGSIZE
abbrev pub log_size : ℕ
log_size = 10

-- `struct log` without its lock. `sectors` is `lh.sector`, of LOGSIZE entries.
pub record Log : Type 0 where
  pub start : ℕ
  pub size : ℕ
  pub busy : Bool
  pub dev : ℕ
  pub n : ℕ
  pub sectors : List ℕ

abbrev pub log_block : Log → ℕ → ℕ
log_block lg tail = lg.start + tail + 1

abbrev pub home : Log → ℕ → ℕ
home lg tail = get_or lg.sectors tail 0

-- The body of the loop of `install_trans`.
unfoldable pub install_one : Store → Log → (tail : ℕ) → Outcome Store
install_one s lg tail = bread s lg.dev (log_block lg tail) >>= λ (l, s1).
    bread s1 lg.dev (home lg tail) >>= λ (d, s2).
    bwrite (fill s2 d (s2.buf l).bytes) d >>= λ s3. brelse s3 l >>= λ s4. brelse s4 d

-- m rounds of the loop, from `tail` on.
unfoldable pub install_from : Store → Log → (tail m : ℕ) → Outcome Store
install_from s lg tail zero = ok s
install_from s lg tail (suc m) = install_one s lg tail >>= λ t. install_from t lg (tail + 1) m

-- The rounds of `for (i = 0; i < n; i++)`, where n is an `int`.
abbrev pub rounds : ℕ → ℕ
rounds n = if ltb n (2 ^ 31) then n else 0

unfoldable pub install_trans : Store → Log → Outcome Store
unfolding install_from
install_trans s lg = install_from s lg 0 (rounds lg.n)

-- `log.lh.sector[i] = lh->sector[i]` at the m entries from i on. The source does not check that
-- they fit; an entry past LOGSIZE is dropped here.
unfoldable pub load_sectors : Block → (sectors : List ℕ) → (i m : ℕ) → List ℕ
load_sectors b sectors i zero = sectors
load_sectors b sectors i (suc m) = load_sectors b (set sectors i (int_at b (i + 1))) (i + 1) m

unfoldable pub load_head : Block → Log → Log
unfolding load_sectors
load_head b lg = record lg {
  n = int_at b 0;
  sectors = load_sectors b lg.sectors 0 (rounds (int_at b 0));
}

unfoldable pub read_head : Store → Log → Outcome (Log × Store)
read_head s lg =
    bread s lg.dev lg.start >>= λ (i, t). brelse t i >>= λ u. ok (load_head (t.buf i).bytes lg, u)

-- `hb->sector[i] = log.lh.sector[i]` at the m entries from i on.
unfoldable pub store_sectors : Block → Log → (i m : ℕ) → Block
store_sectors b lg i zero = b
store_sectors b lg i (suc m) = store_sectors (set_int b (i + 1) (home lg i)) lg (i + 1) m

unfoldable pub store_head : Block → Log → Block
unfolding store_sectors
store_head b lg = store_sectors (set_int b 0 lg.n) lg 0 (rounds lg.n)

unfoldable pub write_head : Store → Log → Outcome Store
write_head s lg = bread s lg.dev lg.start >>= λ (i, t).
    bwrite (fill t i (store_head (t.buf i).bytes lg)) i >>= λ u. brelse u i

-- `recover_from_log`
unfoldable pub recover : Store → Log → Outcome (Log × Store)
recover s lg = read_head s lg >>= λ (lg1, s1). install_trans s1 lg1 >>= λ s2.
    write_head s2 (record lg1 { n = 0 }) >>= λ s3. ok (record lg1 { n = 0 }, s3)

-- `begin_trans`; it waits while another transaction is active.
unfoldable pub begin_trans : Log → Outcome Log
begin_trans lg = if lg.busy then waits else ok (record lg { busy = true })

-- `commit_trans`
unfoldable pub commit_trans : Store → Log → Outcome (Log × Store)
commit_trans s lg =
    if ltb 0 (rounds lg.n)
    then (write_head s lg >>= λ s1. install_trans s1 lg >>= λ s2.
        write_head s2 (record lg { n = 0 }) >>= λ s3. ok (record lg { n = 0; busy = false }, s3))
    else ok (record lg { busy = false }, s)

-- The first of the m entries from i on that names the sector, or the end.
unfoldable pub entry : Log → (sector i m : ℕ) → ℕ
entry lg sector i zero = i
entry lg sector i (suc m) =
    let rest = entry lg sector (i + 1) m in if home lg i == sector then i else rest

-- `log_write` of the buffer in slot b.
unfoldable pub log_write : Store → Log → (b : ℕ) → Outcome (Log × Store)
unfolding entry
log_write s lg b =
    if leb log_size lg.n || leb (lg.size - 1) lg.n
    then panic "too big a transaction"
    else if not lg.busy
    then panic "write outside of trans"
    else let i = entry lg (s.buf b).sector 0 lg.n in
      bread s (s.buf b).dev (log_block lg i) >>= λ (l, s1).
      bwrite (fill s1 l (s1.buf b).bytes) l >>= λ s2. brelse s2 l >>= λ s3. ok (
        record lg {
          sectors = set lg.sectors i (s.buf b).sector;
          n = if i == lg.n then lg.n + 1 else lg.n;
        },
        put_buf s3 b (record (s3.buf b) { dirty = true }),
      )

-- `initlog`, where the superblock (sector 1) has four `uint` fields: the size of the file system
-- first and that of the log last.
unfoldable pub initlog : Store → Outcome (Log × Store)
initlog s = bread s 1 1 >>= λ (i, t). brelse t i >>= λ u. recover u (record {
  start = (int_at (t.buf i).bytes 0 + 2 ^ 32 - int_at (t.buf i).bytes 3) % 2 ^ 32;
  size = int_at (t.buf i).bytes 3;
  busy = false;
  dev = 1;
  n = 0;
  sectors = replicate log_size 0;
})
