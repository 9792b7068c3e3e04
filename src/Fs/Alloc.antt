-- ===== src/Fs/Alloc.antt =====
-- balloc of src/fs.c in an open transaction, against the bitmap that is seen on the disk.
use pinky_os.Prelude.{ℕ, ◌+◌, ◌%◌, ◌<◌, ◌≡◌, ap, Bool, true, false, Option, none, some, replicate}
use pinky_os.Outcome.{Outcome, ok, panic, waits, ◌>>=◌}
use pinky_os.Ide.{Block, Disk}
use pinky_os.Bio.{Store, bread, brelse}
use pinky_os.Bio.Rewrite.{overlay}
use pinky_os.Fs.{
  release_block, Fs, Super, super_of, readsb, bits_per_block, bitmap_block, bit_at, set_bit,
  take_bit, balloc_from,
}
use pinky_os.Fs.Transact.{After}

-- Whether block b is marked in use in the bitmap that is seen.
abbrev pub marked : (ℕ → Block) → (ninodes b : ℕ) → Bool
marked view ninodes b = bit_at (view (bitmap_block b ninodes)) (b % bits_per_block)

-- What is seen once block b is marked and zeroed.
abbrev pub taken : (ℕ → Block) → (ninodes b : ℕ) → ℕ → Block
taken view ninodes b =
    let m = bitmap_block b ninodes in
    overlay (overlay view m (set_bit (view m) (b % bits_per_block))) b (replicate 512 0)

-- What comes of `balloc`.
abbrev pub Allocates : Disk → Fs → Super → (ℕ → Block) → Outcome (ℕ × Fs) → Type 0
Allocates d0 fs sb view (ok (b, fs')) =
    (b < sb.size) × (marked view sb.ninodes b ≡ false) × After d0 fs 2 (taken view sb.ninodes b) fs'
Allocates d0 fs sb view (panic m) = (b : ℕ) → b < sb.size → marked view sb.ninodes b ≡ true
Allocates d0 fs sb view waits = ⊥

-- The bitmap lies below the log, and marks the blocks of the log.
pub record Laid (start : ℕ) (sb : Super) (view : ℕ → Block) : Type 0 where
  pub bitmap : (b : ℕ) → b < sb.size → bitmap_block b sb.ninodes < start
  pub unmarked : (b : ℕ) → b < sb.size → marked view sb.ninodes b ≡ false → b < start

abbrev pub on : Fs → Store → Fs
on fs s = record fs { store = s }

-- One round of `balloc`, with and without a clear bit.
module _ (fs : Fs) (sb : Super) (s s' : Store) (b i n : ℕ)
    (e : bread s 1 (bitmap_block b sb.ninodes) ≡ ok (i, s')) where
  abbrev after : Option ℕ → Outcome (ℕ × Fs)
  after o = elim o [
    | some bi ↦ take_bit (on fs s') 1 b i bi
    | none ↦ release_block (on fs s') i >>= λ fs. balloc_from fs 1 sb (b + bits_per_block) n
  ]

pub readsb_is :
    (fs : Fs) (i : ℕ) (s t : Store)
    → bread fs.store 1 1 ≡ ok (i, s)
    → brelse s i ≡ ok t
    → readsb fs 1 ≡ ok (super_of (s.buf i).bytes, on fs t)
unfolding readsb
readsb_is fs i s t e r = rw e (
    ap
      (λ (o : Outcome Store). (o >>= λ s. ok (on fs s)) >>= λ fs. ok (super_of (s.buf i).bytes, fs))
      r)
