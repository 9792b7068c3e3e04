-- ===== src/Fs/Transact.antt =====
-- The steps of src/fs.c that log a block, in an open transaction of src/log.c.
use pinky_os.Prelude.{ℕ, ◌+◌, ◌^◌, ◌≤◌, ◌<◌, ◌≡◌, refl, sym, ap, ◌∙◌, arith, replicate}
use pinky_os.Outcome.{Outcome, ok, panic, waits, ◌>>=◌}
use pinky_os.Ide.{Block, Disk}
use pinky_os.Bio.{Store, bread, brelse, fill}
use pinky_os.Bio.Coherence.{visible}
use pinky_os.Bio.Rewrite.{overlay}
use pinky_os.Log.{Log, log_write}
use pinky_os.Log.Session.{alter, Txn}
use pinky_os.Log.Transaction.{alter_lem}
use pinky_os.Log.Look.{look_at}
use pinky_os.Fs.{Fs, release_block, log_block, bzero}

-- A transaction that goes on with at most m sectors more, and what is seen below the log then.
pub record After (d0 : Disk) (fs : Fs) (m : ℕ) (view : ℕ → Block) (fs' : Fs) : Type 0 where
  pub txn : Txn d0 fs'.log fs'.store
  pub more : fs'.log.n ≤ fs.log.n + m
  pub start : fs'.log.start ≡ fs.log.start
  pub inodes : fs'.inode ≡ fs.inode
  pub seen : (j : ℕ) → j < fs.log.start → visible fs'.store j ≡ view j

-- `log_write` and `brelse` on the store and the log, and on all of `Fs`.
release_step :
    (fs : Fs) (i : ℕ) (lg : Log) (s : Store) (out : Log × Store) (q : Outcome Store)
    → brelse s i ≡ q
    → (q >>= λ s. ok (lg, s)) ≡ ok out
    → release_block (record fs { store = s; log = lg }) i
      ≡ ok (record fs { store = out.1; log = out.0 })
release_step fs i lg s out (ok t) h e =
    rw h (
      ap (λ (o : Outcome (Log × Store)). o >>= λ (lg, s). ok (record fs { store = s; log = lg })) e)
release_step fs i lg s out (panic m) h e = cc
release_step fs i lg s out waits h e = cc

log_release :
    (fs : Fs) (i : ℕ) (o : Outcome (Log × Store)) (out : Log × Store)
    → (o >>= λ (lg, s). brelse s i >>= λ s. ok (lg, s)) ≡ ok out
    → ((o >>= λ (lg, s). ok (record fs { store = s; log = lg })) >>= λ fs. release_block fs i)
      ≡ ok (record fs { store = out.1; log = out.0 })
log_release fs i (panic m) out e = cc
log_release fs i waits out e = cc
log_release fs i (ok (lg, s)) out e = release_step fs i lg s out (brelse s i) refl e

-- A block that has been read is changed, logged and released.
pub change_lem :
    {d0 : Disk} (fs : Fs) (k : ℕ) (change : Block → Block) (one : ℕ × Store)
    → Txn d0 fs.log fs.store
    → fs.log.n ≤ 7
    → k < fs.log.start
    → fs.log.start ≤ 2 ^ 32
    → bread fs.store 1 k ≡ ok one
    → (fs' : Fs) × ((log_block
            (record fs { store = fill one.1 one.0 (change (one.1.buf one.0).bytes) })
            one.0
          >>= λ fs. release_block fs one.0)
        ≡ ok fs')
      × After d0 fs 1 (overlay (visible fs.store) k (change (visible fs.store k))) fs'
unfolding alter
change_lem {d0} fs k change one t few low word e =
    let (s', r, t', m, v) = alter_lem t few k low change (omega arith) in
    let f = fill one.1 one.0 (change (one.1.buf one.0).bytes) in
    let r' : (log_write f fs.log one.0 >>= λ (lg, s). brelse s one.0 >>= λ s. ok (lg, s))
        ≡ ok (_, s') =
      (sym (
          ap
            (λ (o : Outcome (ℕ × Store)). o >>= λ (i, s).
              log_write (fill s i (change (s.buf i).bytes)) fs.log i >>= λ (lg, s).
              brelse s i >>= λ s. ok (lg, s))
            e)
        ∙ r) in
    (
      record fs { store = s'; log = _ },
      log_release (record fs { store = f }) one.0 (log_write f fs.log one.0) (_, s') r',
      record { txn = t'; more = m; start = refl; inodes = refl; seen = v },
    )

-- In a transaction of at most seven sectors, bzero of a block below the log returns, and the block is
-- then seen to hold zeros.
pub bzero_lem :
    {d0 : Disk} (fs : Fs) (k : ℕ)
    → Txn d0 fs.log fs.store
    → fs.log.n ≤ 7
    → k < fs.log.start
    → fs.log.start ≤ 2 ^ 32
    → (fs' : Fs) × (bzero fs 1 k ≡ ok fs')
      × After d0 fs 1 (overlay (visible fs.store) k (replicate 512 0)) fs'
unfolding bzero
bzero_lem fs k t few low word =
    let (one, s, e, bytes, rel, t2, view) = look_at k t (omega arith) low in
    let (fs', r, a) = change_lem fs k (λ b. replicate 512 0) one t few low word e in
    (fs', rw e r, a)
