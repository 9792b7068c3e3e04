-- ===== src/Log/Redo.antt =====
-- Installations of src/log.c compared: a second one after a part of the first, and one by a log that
-- was loaded from the disk.
use pinky_os.Prelude.{
  ℕ, zero, suc, ◌+◌, ◌≤◌, ◌<◌, ◌≡◌, refl, ◌≢◌, inl, inr, none, arith, test_of_ne, Option-cases,
}
use pinky_os.Ide.{Block, Disk}
use pinky_os.Bio.{binit}
use pinky_os.Bio.Coherence.{binit-IsCoherent}
use pinky_os.Bio.Rewrite.{Calm, overlay}
use pinky_os.Log.{Log, log_block, home}
use pinky_os.Log.Install.{last, installed, installed-log, Fits}

last_earlier :
    (lg : Log) (tail m n k : ℕ) → m ≤ n → last lg tail n k ≡ none → last lg tail m k ≡ none
last_earlier lg tail zero n k le e = refl
last_earlier lg tail (suc m) zero k le e = absurd (omega arith)
last_earlier lg tail (suc m) (suc n) k le e = ground (arith, last_earlier lg (tail + 1) m n k)

pub Fits-fewer : {lg : Log} {m n len : ℕ} → m ≤ n → Fits lg 0 n len → Fits lg 0 m len
Fits-fewer le f = record {
  dev = f.dev;
  room = (let r = f.room in omega arith);
  homes = λ i a b. f.homes i a (omega arith);
}

-- The log is a redo log: after a part of the installation, the whole of it gives the same.
pub installed_again :
    (lg : Log) (view : ℕ → Block) (m n len k : ℕ)
    → Fits lg 0 n len
    → m ≤ n
    → installed lg (installed lg view 0 m) 0 n k ≡ installed lg view 0 n k
unfolding installed
installed_again lg view m n len k f le = elim (Option-cases (last lg 0 n k)) [
  | inl e ↦ rw (e, last_earlier lg 0 m n k le e)
  | inr (i, e) ↦ rw e (
      unfold installed in
      installed-log lg view 0 m len (log_block lg i) (Fits-fewer le f) (omega arith))
]

last_agree :
    (a b : Log) (tail m k : ℕ)
    → ((i : ℕ) → i < tail + m → home a i ≡ home b i)
    → last a tail m k ≡ last b tail m k
last_agree a b tail zero k h = refl
last_agree a b tail (suc m) k h =
    ground (arith, last_agree a b (tail + 1) m k (λ i lt. h i (omega arith)), h tail (omega arith))

-- Only the entries, the place of the log, the log's blocks and the sector itself matter.
pub installed_agree :
    (a b : Log) (u v : ℕ → Block) (m len k : ℕ)
    → a.start ≡ b.start
    → ((i : ℕ) → i < m → home a i ≡ home b i)
    → ((j : ℕ) → j ≢ b.start → u j ≡ v j)
    → k ≢ b.start
    → installed a u 0 m k ≡ installed b v 0 m k
unfolding installed
installed_agree a b u v m len k st h e ne = elim (Option-cases (last b 0 m k)) [
  | inl p ↦ rw (last_agree a b 0 m k (λ j lt. h j (omega arith)), p) (e k ne)
  | inr (i, p) ↦
      rw (last_agree a b 0 m k (λ j lt. h j (omega arith)), p, st)
        (e (log_block b i) (λ q. omega arith))
]

pub binit-Calm : (d : Disk) → Calm (binit d)
unfolding binit
binit-Calm d = record { coherent = (binit-IsCoherent d).0; idle = λ i h. refl; room = omega arith }

pub binit-disk : (d : Disk) → (binit d).disk ≡ d
unfolding binit
binit-disk d = refl

pub overlay_out : (v : ℕ → Block) (i k : ℕ) (b : Block) → k ≢ i → overlay v i b k ≡ v k
overlay_out v i k b ne = rw (test_of_ne k i ne)

pub Fits-alike :
    {a b : Log} {len len' : ℕ}
    → Fits a 0 a.n len
    → b.dev ≡ 1
    → b.start ≡ a.start
    → b.n ≡ a.n
    → ((i : ℕ) → i < a.n → home b i ≡ home a i)
    → len' ≡ len
    → Fits b 0 b.n len'
Fits-alike f dev st count entries size = record {
  dev = dev;
  room = (let r = f.room in omega arith);
  homes = λ i z h.
      (let e = entries i (omega arith) in let low = f.homes i z (omega arith) in omega arith);
}
