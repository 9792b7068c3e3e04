-- ===== src/Log/Crash.antt =====
-- A commit of src/log.c cut short by a crash between two writes of the disk, and what
-- `recover_from_log` makes of the disk that is left.
use pinky_os.Prelude.{
  ℕ, ◌+◌, ◌^◌, ◌≤◌, ◌<◌, ◌≡◌, refl, ap, ◌∙◌, ◌≢◌, true, false, arith, ltb, eq_self, length,
  length-set, zero, suc, ◌-◌, sym,
}
use mathlib.Core.Path.{sym, fun_ext}
use pinky_os.Outcome.{ok, Outcome, panic, waits, ◌>>=◌}
use pinky_os.Ide.{Block, Disk, sector_at}
use pinky_os.Bio.{Store, binit}
use pinky_os.Bio.Coherence.{visible, binit-IsCoherent}
use pinky_os.Bio.Rewrite.{Calm, overlay}
use pinky_os.Ints.{int_at}
use pinky_os.Log.{
  commit_trans, install_trans, Log, log_block, home, log_size, install_from, load_head, write_head,
  recover, store_head, install_one,
}
use pinky_os.Log.Install.{
  installed, installed-log, Fits, LogOnDisk, install_from_lem, sector_at-set,
}
use pinky_os.Log.Header.{
  rounds_small, load_head-store_head, length-store_head, empty_head, emptied_head,
}
use pinky_os.Log.Recovery.{
  header, overlay_in, write_head_lem, loaded, loaded-start, loaded-dev, recover_lem,
}
use pinky_os.Log.Redo.{
  Fits-fewer, installed_again, installed_agree, binit-Calm, binit-disk, overlay_out, Fits-alike,
}

-- A transaction that is ready to commit: its blocks are in the log on the disk.
pub record Ready (s : Store) (lg : Log) : Type 0 where
  pub calm : Calm s
  pub few : lg.n ≤ log_size
  pub fits : Fits lg 0 lg.n (length s.disk)
  pub words : (i : ℕ) → home lg i < 2 ^ 32
  pub head_whole : length (visible s lg.start) ≡ 512
  pub logged : LogOnDisk s lg 0 lg.n

-- `log` as `initlog` has set it up at a restart.
pub record Restarted (lg old : Log) : Type 0 where
  pub start : old.start ≡ lg.start
  pub dev : old.dev ≡ 1
  pub room : length old.sectors ≡ log_size

-- The disk after the header is written and m blocks are installed.
record Torn (s : Store) (lg : Log) (m : ℕ) (t : Store) : Type 0 where
  size : length t.disk ≡ length s.disk
  head : sector_at t.disk lg.start ≡ header s lg
  rest :
      (k : ℕ)
      → sector_at t.disk k ≡ installed lg (overlay (sector_at s.disk) lg.start (header s lg)) 0 m k

tear :
    (s : Store) (lg : Log) (m : ℕ)
    → Ready s lg
    → m ≤ lg.n
    → (s1 s2 : Store) × (write_head s lg ≡ ok s1)
      × (install_from s1 lg 0 m ≡ ok s2)
      × Torn s lg m s2
tear s lg m r le =
    let f = Fits-fewer le r.fits in
    let room = f.room in
    let (s1, e1, l) = write_head_lem s lg r.calm f.dev (omega arith) in
    let size : length s1.disk ≡ length s.disk =
      (ap length l.disk_is ∙ length-set s.disk lg.start _) in
    let (s2, e2, n) = install_from_lem s1 lg 0 m l.calm (rw size f) in
    let d1 : (k : ℕ) → sector_at s1.disk k ≡ overlay (sector_at s.disk) lg.start (header s lg) k =
      (λ k.
        ap (λ (d : Disk). sector_at d k) l.disk_is
        ∙ sector_at-set s.disk lg.start k (header s lg) (omega arith)) in
    let on : LogOnDisk s1 lg 0 m =
      (λ i a b. ground (arith, l.view_is (log_block lg i), d1 (log_block lg i), r.logged i)) in
    let rest =
      λ (k : ℕ). n.stored on k ∙ ap (λ (v : ℕ → Block). installed lg v 0 m k) (fun_ext d1) in
    (
      s1,
      s2,
      e1,
      e2,
      record {
        size = n.size ∙ size;
        head =
            rest lg.start
            ∙ installed-log lg _ 0 m (length s.disk) lg.start f (omega arith)
            ∙ rw (eq_self lg.start);
        rest = rest;
      },
    )

-- A transaction is ready to commit (`Ready`: an idle, coherent cache with two buffers free, at most
-- LOGSIZE entries that fit, and their blocks in the log on the disk). The commit crashes after the
-- header is on the disk and any number of the blocks are installed. Recovery on the disk that is
-- left, in a `log` set up for the same place, returns and leaves a log that counts no entry, in memory
-- and in its header on the disk, and every sector below the log is seen as the finished transaction
-- leaves it.
pub crash-recover :
    (s : Store) (lg old : Log) (m : ℕ)
    → Ready s lg
    → Restarted lg old
    → m ≤ lg.n
    → (s1 s2 : Store) × (out : Log × Store) × (write_head s lg ≡ ok s1)
      × (install_from s1 lg 0 m ≡ ok s2)
      × (recover (binit s2.disk) old ≡ ok out)
      × (out.0.n ≡ 0)
      × (int_at (sector_at out.1.disk lg.start) 0 ≡ 0)
      × ((k : ℕ) → k < lg.start → visible out.1 k ≡ installed lg (sector_at s.disk) 0 lg.n k)
crash-recover s lg old m r o le =
    let (s1, s2, e1, e2, t) = tear s lg m r le in
    let fresh = binit s2.disk in
    let on_disk : (k : ℕ) → visible fresh k ≡ sector_at s2.disk k = (binit-IsCoherent s2.disk).1 in
    let head : visible fresh old.start ≡ header s lg =
      (on_disk old.start ∙ ap (sector_at s2.disk) o.start ∙ t.head) in
    let got = load_head-store_head lg old (visible s lg.start) r.head_whole r.few o.room r.words in
    let count : (loaded fresh old).n ≡ lg.n =
      (ap (λ (b : Block). (load_head b old).n) head ∙ got.0) in
    let entries : (i : ℕ) → i < lg.n → home (loaded fresh old) i ≡ home lg i =
      (λ i h. ap (λ (b : Block). home (load_head b old) i) head ∙ got.1 i h) in
    let st : (loaded fresh old).start ≡ lg.start = (loaded-start fresh old ∙ o.start) in
    let few = r.few in
    let (out, e3, v) = recover_lem fresh old (binit-Calm s2.disk) (omega arith) (
      Fits-alike r.fits (loaded-dev fresh old ∙ o.dev) st count entries
        (ap length (binit-disk s2.disk) ∙ t.size)) in
    let base = overlay (sector_at s.disk) lg.start (header s lg) in
    let L = loaded fresh old in
    let len = length s.disk in
    let startk = o.start in
    (
      s1,
      s2,
      out,
      e1,
      e2,
      e3,
      v.empty,
      ap (λ (x : ℕ). int_at (sector_at out.1.disk x) 0) (sym o.start)
          ∙ v.head (ap length head ∙ length-store_head (visible s lg.start) lg ∙ r.head_whole),
      λ k low.
          v.seen k
          ∙ overlay_out (installed L (visible fresh) 0 L.n) old.start k _ (λ e. omega arith)
          ∙ ap (λ (n : ℕ). installed L (visible fresh) 0 n k) count
          ∙ installed_agree L lg (visible fresh) (installed lg base 0 m) lg.n len k st entries
              (λ j ne. on_disk j ∙ t.rest j) (λ e. omega arith)
          ∙ installed_again lg base m lg.n len k r.fits le
          ∙ installed_agree lg lg base (sector_at s.disk) lg.n len k refl (λ i h. refl)
              (λ j ne. overlay_out (sector_at s.disk) lg.start j (header s lg) ne)
              (λ e. omega arith),
    )

-- If the header on the disk, which the log's start is the sector of, counts no entry, as after a
-- crash before the header is written, recovery on that disk returns, and every sector but that of
-- the header is seen as the disk has it.
pub crash-undo :
    (d : Disk) (old : Log)
    → old.dev ≡ 1
    → old.start < length d
    → int_at (sector_at d old.start) 0 ≡ 0
    → (out : Log × Store) × (recover (binit d) old ≡ ok out)
      × ((k : ℕ) → k ≢ old.start → visible out.1 k ≡ sector_at d k)
unfolding installed load_head
crash-undo d old dev range none_counted =
    let fresh = binit d in
    let on_disk : (k : ℕ) → visible fresh k ≡ sector_at d k = (binit-IsCoherent d).1 in
    let size = ap length (binit-disk d) in
    let count : (loaded fresh old).n ≡ 0 =
      (ap (λ (b : Block). int_at b 0) (on_disk old.start) ∙ none_counted) in
    let (out, e, v) =
      recover_lem fresh old (binit-Calm d) (omega arith)
        (record { dev = dev; room = omega arith; homes = λ i z h. absurd (omega arith) }) in
    (
      out,
      e,
      λ k ne.
          v.seen k
          ∙ overlay_out (installed (loaded fresh old) (visible fresh) 0 (loaded fresh old).n)
              old.start k _ ne
          ∙ ap (λ (n : ℕ). installed (loaded fresh old) (visible fresh) 0 n k) count
          ∙ on_disk k,
    )

bind_assoc :
    {A B C : Type 0} (o : Outcome A) (f : A → Outcome B) (g : B → Outcome C)
    → (o >>= f >>= g) ≡ (o >>= λ (a : A). f a >>= g)
bind_assoc (ok a) f g = refl
bind_assoc (panic e) f g = refl
bind_assoc waits f g = refl

install_from-add :
    (s : Store) (lg : Log) (tail a b : ℕ)
    → install_from s lg tail (a + b)
      ≡ (install_from s lg tail a >>= λ t. install_from t lg (tail + a) b)
unfolding install_from
install_from-add s lg tail zero b =
    ap (install_from s lg tail) {x = 0 + b} {y = b} (omega arith)
    ∙ ap (λ (k : ℕ). install_from s lg k b) {x = tail} {y = tail + 0} (omega arith)
install_from-add s lg tail (suc a) b =
    ap (install_from s lg tail) {x = suc a + b} {y = suc (a + b)} (omega arith)
    ∙ ap (λ (f : Store → Outcome Store). install_one s lg tail >>= f)
        (fun_ext (λ t.
          install_from-add t lg (tail + 1) a b
          ∙ ap (λ (k : ℕ). install_from t lg (tail + 1) a >>= λ u. install_from u lg k b)
              {x = tail + 1 + a} {y = tail + suc a} (omega arith)))
    ∙ sym (
        bind_assoc (install_one s lg tail) (λ t. install_from t lg (tail + 1) a)
          (λ u. install_from u lg (tail + suc a) b))

-- The commit comes to the state in which the header is written and m blocks are installed, and goes
-- on from it.
pub record Passes (s : Store) (lg : Log) (m : ℕ) : Type 0 where
  pub head_written : Store
  pub reached : Store
  pub writes : write_head s lg ≡ ok head_written
  pub installs : install_from head_written lg 0 m ≡ ok reached
  pub goes_on : commit_trans s lg ≡ (
      install_from reached lg m (lg.n - m) >>= λ s3.
      write_head s3 (record lg { n = 0 }) >>= λ s4. ok (record lg { n = 0; busy = false }, s4))

commit-Passes : (s : Store) (lg : Log) (m : ℕ) → Ready s lg → 0 < lg.n → m ≤ lg.n → Passes s lg m
unfolding commit_trans install_trans
commit-Passes s lg m r some_entry le =
    let (s1, s2, e1, e2, t) = tear s lg m r le in
    let go : ltb 0 lg.n ≡ true = ground arith in
    let all : install_from s1 lg 0 lg.n ≡ install_from s2 lg m (lg.n - m) =
      (ap (install_from s1 lg 0) {x = lg.n} {y = m + (lg.n - m)} (omega arith)
        ∙ install_from-add s1 lg 0 m (lg.n - m)
        ∙ ap (λ (o : Outcome Store). o >>= λ t. install_from t lg (0 + m) (lg.n - m)) e2
        ∙ ap (λ (k : ℕ). install_from s2 lg k (lg.n - m)) {x = 0 + m} {y = m} (omega arith)) in
    record {
      head_written = s1;
      reached = s2;
      writes = e1;
      installs = e2;
      goes_on = rw (rounds_small lg.n r.few, go, e1, all);
    }

-- A commit of a transaction that is ready (`Ready`: an idle, coherent cache with two buffers free, at
-- most LOGSIZE entries that fit, and their blocks in the log on the disk) and has at least one entry
-- returns. The cache is again idle and coherent with two buffers free, and the log is empty and not
-- busy. The header on the disk names the sectors of the transaction, as the commit wrote them, and
-- counts none of them. Every sector but the header's is seen to hold the last block that the log had
-- for it, or else what it held. On its way the commit passes each of the states in which the header is
-- written and a first part of the blocks is installed.
pub commit_lem :
    (s : Store) (lg : Log)
    → Ready s lg
    → 0 < lg.n
    → (t : Store) × (commit_trans s lg ≡ ok (record lg { n = 0; busy = false }, t))
      × Calm t
      × (int_at (sector_at t.disk lg.start) 0 ≡ 0)
      × ((i : ℕ) → i < lg.n → int_at (sector_at t.disk lg.start) (i + 1) ≡ home lg i)
      × ((k : ℕ) → k ≢ lg.start → visible t k ≡ installed lg (visible s) 0 lg.n k)
      × ((m : ℕ) → m ≤ lg.n → Passes s lg m)
unfolding commit_trans install_trans
commit_lem s lg r some_entry =
    let room = r.fits.room in
    let (s1, e1, l1) = write_head_lem s lg r.calm r.fits.dev (omega arith) in
    let size : length s1.disk ≡ length s.disk =
      (ap length l1.disk_is ∙ length-set s.disk lg.start _) in
    let (s2, e2, n) = install_from_lem s1 lg 0 lg.n l1.calm (rw size r.fits) in
    let size2 = n.size in
    let lg2 : Log = record lg { n = 0 } in
    let (s3, e3, l3) = write_head_lem s2 (record lg { n = 0 }) n.calm r.fits.dev (omega arith) in
    let go : ltb 0 lg.n ≡ true = ground arith in
    let kept : visible s2 lg.start ≡ header s lg =
      (n.seen lg.start
        ∙ installed-log lg (visible s1) 0 lg.n (length s.disk) lg.start r.fits (omega arith)
        ∙ l1.view_is lg.start
        ∙ overlay_in (visible s) lg.start (header s lg)) in
    let head : sector_at s3.disk lg.start ≡ store_head (header s lg) lg2 =
      (ap (λ (d : Disk). sector_at d lg.start) l3.disk_is
        ∙ sector_at-set s2.disk lg.start lg.start (header s2 lg2) (omega arith)
        ∙ overlay_in (sector_at s2.disk) lg.start (header s2 lg2)
        ∙ ap (λ (b : Block). store_head b lg2) kept) in
    let whole = length-store_head (visible s lg.start) lg ∙ r.head_whole in
    (
      s3,
      rw (rounds_small lg.n r.few, go, e1, e2, e3),
      l3.calm,
      ap (λ (b : Block). int_at b 0) head ∙ empty_head (header s lg) lg whole,
      λ i h.
          ap (λ (b : Block). int_at b (i + 1)) head
          ∙ emptied_head (visible s lg.start) lg r.head_whole r.few r.words i h,
      λ k out.
          l3.view_is k
          ∙ overlay_out (visible s2) lg.start k _ out
          ∙ n.seen k
          ∙ installed_agree lg lg (visible s1) (visible s) lg.n (length s.disk) k refl (λ i h. refl)
              (λ j ne. l1.view_is j ∙ overlay_out (visible s) lg.start j (header s lg) ne) out,
      λ m le. commit-Passes s lg m r some_entry le,
    )
