-- ===== src/Log/Recovery.antt =====
-- Crashes of src/log.c: the machine stops between two writes of the disk during a commit, and
-- `recover_from_log` runs on a fresh cache over the disk that is left.
use pinky_os.Prelude.{ℕ, ◌≤◌, ◌<◌, ◌≡◌, refl, sym, ap, ◌∙◌, arith, length, set, eq_self}
use mathlib.Core.Path.{fun_ext}
use pinky_os.Outcome.{ok}
use pinky_os.Ide.{Block, Disk, sector_at}
use pinky_os.Ints.{int_at}
use pinky_os.Bio.{Store, bread}
use pinky_os.Bio.Coherence.{visible}
use pinky_os.Bio.Rewrite.{Calm, Leaves, overlay, bread-Calm, read_back, rewrite}
use pinky_os.Log.{
  Log, log_size, install_trans, load_head, store_head, read_head, write_head, recover,
}
use pinky_os.Log.Install.{installed, installed-log, Fits, install_from_lem, sector_at-set}
use pinky_os.Log.Header.{rounds_small, empty_head}

pub overlay_in : (v : ℕ → Block) (i : ℕ) (b : Block) → overlay v i b i ≡ b
overlay_in v i b = rw (eq_self i)

-- The header block after `write_head`.
abbrev pub header : Store → Log → Block
header s lg = store_head (visible s lg.start) lg

pub write_head_lem :
    (s : Store) (lg : Log)
    → Calm s
    → lg.dev ≡ 1
    → lg.start < length s.disk
    → (t : Store) × (write_head s lg ≡ ok t)
      × Leaves (set s.disk lg.start (header s lg)) (overlay (visible s) lg.start (header s lg)) t
unfolding write_head
write_head_lem s lg c dev range =
    let (out, e, g) = bread-Calm c range in
    let (u, t, e1, e2, l) = rewrite (header s lg) c g in
    let e0 : bread s lg.dev lg.start ≡ ok out = rw dev e in (t, rw (e0, g.bytes, e1, e2), l)

read_head_lem :
    (s : Store) (lg : Log)
    → Calm s
    → lg.dev ≡ 1
    → lg.start < length s.disk
    → (t : Store) × (read_head s lg ≡ ok (load_head (visible s lg.start) lg, t))
      × Leaves s.disk (visible s) t
unfolding read_head
read_head_lem s lg c dev range =
    let (out, e, g) = bread-Calm c range in
    let (t, e1, l) = read_back c g in
    let e0 : bread s lg.dev lg.start ≡ ok out = rw dev e in (t, rw (e0, g.bytes, e1), l)

-- What `recover_from_log` loads from the header that the disk has.
abbrev pub loaded : Store → Log → Log
loaded s lg = load_head (visible s lg.start) lg

pub loaded-start : (s : Store) (lg : Log) → (loaded s lg).start ≡ lg.start
unfolding load_head
loaded-start s lg = refl

pub loaded-dev : (s : Store) (lg : Log) → (loaded s lg).dev ≡ lg.dev
unfolding load_head
loaded-dev s lg = refl

-- Recovery installs the entries that the header counts, and leaves a header that counts none.
pub record Recovers (s : Store) (lg : Log) (out : Log × Store) : Type 0 where
  pub calm : Calm out.1
  pub seen :
      (k : ℕ)
      → visible out.1 k
        ≡ overlay
            (installed (loaded s lg) (visible s) 0 (loaded s lg).n)
            lg.start
            (store_head (visible s lg.start) (record (loaded s lg) { n = 0 }))
            k
  pub empty : out.0.n ≡ 0
  pub head : length (visible s lg.start) ≡ 512 → int_at (sector_at out.1.disk lg.start) 0 ≡ 0

pub recover_lem :
    (s : Store) (lg : Log)
    → Calm s
    → (loaded s lg).n ≤ log_size
    → Fits (loaded s lg) 0 (loaded s lg).n (length s.disk)
    → (out : Log × Store) × (recover s lg ≡ ok out) × Recovers s lg out
unfolding recover install_trans
recover_lem s lg c few f =
    let lg1 = loaded s lg in
    let st = loaded-start s lg in
    let room = f.room in
    let (s1, e1, l1) = read_head_lem s lg c (sym (loaded-dev s lg) ∙ f.dev) (omega arith) in
    let (s2, e2, n) = install_from_lem s1 lg1 0 lg1.n l1.calm (rw l1.disk_is f) in
    let size : length s2.disk ≡ length s.disk = (n.size ∙ ap length l1.disk_is) in
    let v2 : (k : ℕ) → visible s2 k ≡ installed lg1 (visible s) 0 lg1.n k =
      (λ k. n.seen k ∙ ap (λ (v : ℕ → Block). installed lg1 v 0 lg1.n k) (fun_ext l1.view_is)) in
    let top : visible s2 lg.start ≡ visible s lg.start =
      (v2 lg.start
        ∙ installed-log lg1 (visible s) 0 lg1.n (length s.disk) lg.start f (omega arith)) in
    let lg2 : Log = record lg1 { n = 0 } in
    let (s3, e3, l3) = write_head_lem s2 (record lg1 { n = 0 }) n.calm f.dev (omega arith) in
    (
      (record lg1 { n = 0 }, s3),
      rw (e1, rounds_small lg1.n few, e2, e3),
      record {
        calm = l3.calm;
        seen = λ k.
            l3.view_is k
            ∙ ap (λ (x : ℕ). overlay (visible s2) x (store_head (visible s2 x) lg2) k) st
            ∙ ap (λ (b : Block). overlay (visible s2) lg.start (store_head b lg2) k) top
            ∙ ap (λ (v : ℕ → Block). overlay v lg.start (store_head (visible s lg.start) lg2) k)
                (fun_ext v2);
        empty = refl;
        head = λ whole.
            ap (λ (x : ℕ). int_at (sector_at s3.disk x) 0) (sym st)
            ∙ ap (λ (d : Disk). int_at (sector_at d lg1.start) 0) l3.disk_is
            ∙ ap (λ (b : Block). int_at b 0)
                (sector_at-set s2.disk lg1.start lg1.start (header s2 lg2) (omega arith)
                  ∙ overlay_in (sector_at s2.disk) lg1.start (header s2 lg2))
            ∙ empty_head (visible s2 lg1.start) lg1
                (ap (λ (x : ℕ). length (visible s2 x)) st ∙ ap length top ∙ whole);
      },
    )
