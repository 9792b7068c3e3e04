-- ===== src/Log/Install.antt =====
-- `install_trans` of src/log.c: what the file system's sectors hold after any number of its rounds.
use pinky_os.Prelude.{
  ℕ, zero, suc, ◌+◌, ◌≤◌, ◌<◌, ◌≡◌, refl, ap, ◌∙◌, inl, inr, Option, none, some, [], arith, ◌==◌,
  if◌then◌else◌, Option-cases, length, set, length-set, get_or-set_self, get_or-set_ne,
}
use pinky_os.Outcome.{ok}
use pinky_os.Ide.{Block, Disk, sector_at}
use pinky_os.Bio.{Store}
use pinky_os.Bio.Coherence.{visible}
use pinky_os.Bio.Rewrite.{Calm, Leaves, overlay}
use pinky_os.Bio.CopyOver.{copy_over}
use pinky_os.Log.{Log, log_block, home, install_one, install_from}

-- The last of the m entries from `tail` on that is for a sector.
abbrev pub last : Log → (tail m sector : ℕ) → Option ℕ
last lg tail zero k = none
last lg tail (suc m) k = elim (last lg (tail + 1) m k) [
  | some i ↦ some i
  | none ↦ if home lg tail == k then some tail else none
]

abbrev replaced : Log → (ℕ → Block) → ℕ → Option ℕ → Block
replaced lg view k none = view k
replaced lg view k (some i) = view (log_block lg i)

-- The sectors after the installation of m entries from `tail` on: each entry's sector has the block
-- that the log holds for it.
unfoldable pub installed : Log → (ℕ → Block) → (tail m : ℕ) → ℕ → Block
installed lg view tail m k = replaced lg view k (last lg tail m k)

-- The m entries from `tail` on have their blocks and their homes on disk 1, the homes below the log.
pub record Fits (lg : Log) (tail m len : ℕ) : Type 0 where
  pub dev : lg.dev ≡ 1
  pub room : lg.start + tail + m < len
  pub homes : (i : ℕ) → tail ≤ i → i < tail + m → home lg i < lg.start

tail-Fits : {lg : Log} {tail m len : ℕ} → Fits lg tail (suc m) len → Fits lg (tail + 1) m len
tail-Fits f = record {
  dev = f.dev;
  room = (let r = f.room in omega arith);
  homes = λ i a b. f.homes i (omega arith) (omega arith);
}

pub last-range :
    (lg : Log) (tail m k i : ℕ)
    → last lg tail m k ≡ some i
    → (tail ≤ i) × (i < tail + m) × (home lg i ≡ k)
last-range lg tail zero k i e = cc
last-range lg tail (suc m) k i e =
    ground (arith, last-range lg (tail + 1) m k i, ap (home lg) {x = tail} {y = i})

-- The log area is above every home, so an installation leaves it alone.
pub installed-log :
    (lg : Log) (view : ℕ → Block) (tail m len k : ℕ)
    → Fits lg tail m len
    → lg.start ≤ k
    → installed lg view tail m k ≡ view k
unfolding installed
installed-log lg view tail m len k f h = elim (Option-cases (last lg tail m k)) [
  | inl e ↦ rw e
  | inr (i, e) ↦ let r = last-range lg tail m k i e in absurd (ground (arith, f.homes i))
]

install_one_lem :
    {s : Store} (lg : Log) (tail m : ℕ)
    → Calm s
    → Fits lg tail (suc m) (length s.disk)
    → (t : Store) × (install_one s lg tail ≡ ok t)
      × Leaves
          (set s.disk (home lg tail) (visible s (log_block lg tail)))
          (overlay (visible s) (home lg tail) (visible s (log_block lg tail)))
          t
unfolding install_one
install_one_lem {s} lg tail m c f =
    let low = f.homes tail (omega arith) (omega arith) in
    let room = f.room in
    let (src, dst, u, v, t, e1, e2, e3, e4, e5, left) =
      copy_over {k = log_block lg tail} {m = home lg tail} c (λ e. omega arith) (omega arith)
        (omega arith) in
    (t, rw (f.dev, e1, e2, e3, e4, e5), left)

-- One entry and then the rest are all of them.
installed_step :
    (lg : Log) (view view' : ℕ → Block) (tail m len k : ℕ)
    → Fits lg tail (suc m) len
    → ((j : ℕ) → view' j ≡ overlay view (home lg tail) (view (log_block lg tail)) j)
    → installed lg view' (tail + 1) m k ≡ installed lg view tail (suc m) k
unfolding installed
installed_step lg view view' tail m len k f e =
    let low = f.homes tail (omega arith) (omega arith) in
    elim (Option-cases (last lg (tail + 1) m k)) [
      | inl none_later ↦ rw none_later (ground (arith, e k))
      | inr (i, later) ↦
          rw later (ground (arith, e (log_block lg i), last-range lg (tail + 1) m k i later))
    ]

-- The log's blocks are on the disk as they are seen through the cache.
abbrev pub LogOnDisk : Store → Log → (tail m : ℕ) → Type 0
LogOnDisk s lg tail m =
    (i : ℕ)
    → tail ≤ i
    → i < tail + m
    → visible s (log_block lg i) ≡ sector_at s.disk (log_block lg i)

pub record Installs (s : Store) (lg : Log) (tail m : ℕ) (t : Store) : Type 0 where
  pub calm : Calm t
  pub size : length t.disk ≡ length s.disk
  pub seen : (k : ℕ) → visible t k ≡ installed lg (visible s) tail m k
  pub stored :
      LogOnDisk s lg tail m
      → (k : ℕ) → sector_at t.disk k ≡ installed lg (sector_at s.disk) tail m k

pub sector_at-set :
    (d : Disk) (i k : ℕ) (b : Block)
    → i < length d
    → sector_at (set d i b) k ≡ overlay (sector_at d) i b k
sector_at-set d i k b h = ground (
  arith,
  get_or-set_self d i b [] h,
  get_or-set_ne d i k b [],
  ap (sector_at (set d i b)) {x = k} {y = i},
)

-- After one round of the loop and the rounds that follow it.
Installs-step :
    {s t1 t : Store} (lg : Log) (tail m : ℕ)
    → Fits lg tail (suc m) (length s.disk)
    → Leaves
        (set s.disk (home lg tail) (visible s (log_block lg tail)))
        (overlay (visible s) (home lg tail) (visible s (log_block lg tail)))
        t1
    → Installs t1 lg (tail + 1) m t
    → Installs s lg tail (suc m) t
Installs-step {s} {t1} {t} lg tail m f l n =
    let low = f.homes tail (omega arith) (omega arith) in
    let room = f.room in
    record {
      calm = n.calm;
      size = n.size ∙ ap length l.disk_is ∙ length-set s.disk (home lg tail) _;
      seen = λ k. n.seen k ∙ installed_step lg (visible s) (visible t1) tail m _ k f l.view_is;
      stored = λ on k.
          let step = λ (j : ℕ).
            ap (λ (d : Disk). sector_at d j) l.disk_is
            ∙ sector_at-set s.disk (home lg tail) j (visible s (log_block lg tail)) (omega arith)
            ∙ ap (λ (b : Block). overlay (sector_at s.disk) (home lg tail) b j)
                (on tail (omega arith) (omega arith)) in
          n.stored
            (λ i a b. ground (arith, l.view_is (log_block lg i), step (log_block lg i), on i)) k
          ∙ installed_step lg (sector_at s.disk) (sector_at t1.disk) tail m _ k f step;
    }

-- From an idle, coherent cache with two buffers free (`Calm`), any number of rounds of
-- `install_trans` whose entries fit (`Fits`: their blocks on disk 1, their sectors below the log)
-- returns with such a cache, in which each sector that the entries name is seen to hold its last
-- block of the log, and every other sector what it held. If the log's blocks were on the disk, the
-- disk holds the same.
pub install_from_lem :
    (s : Store) (lg : Log) (tail m : ℕ)
    → Calm s
    → Fits lg tail m (length s.disk)
    → (t : Store) × (install_from s lg tail m ≡ ok t) × Installs s lg tail m t
unfolding install_from installed
install_from_lem s lg tail zero c f =
    (s, refl, record { calm = c; size = refl; seen = λ k. refl; stored = λ on k. refl })
install_from_lem s lg tail (suc m) c f =
    let (t1, e1, l) = install_one_lem lg tail m c f in
    let size : length t1.disk ≡ length s.disk =
      (ap length l.disk_is ∙ length-set s.disk (home lg tail) _) in
    let (t, e, n) = install_from_lem t1 lg (tail + 1) m l.calm (rw size (tail-Fits f)) in
    (t, rw e1 e, Installs-step lg tail m f l n)
