-- ===== src/Fs/Free.antt =====
-- bfree and iupdate of src/fs.c in an open transaction of the log.
use pinky_os.Prelude.{ℕ, ◌%◌, ◌≡◌, Bool, true, false, not, if◌then◌else◌, set}
use pinky_os.Outcome.{Outcome, ok, panic, waits, ◌>>=◌}
use pinky_os.Ide.{Block, Disk}
use pinky_os.Bio.{Store}
use pinky_os.Bio.Rewrite.{overlay}
use pinky_os.Fs.{Fs, bits_per_block, bitmap_block, clear_bit, log_block, put_data, release_block}
use pinky_os.Fs.Transact.{After}
use pinky_os.Fs.Alloc.{marked, on}

-- What comes of `bfree` of block b.
abbrev pub Frees : Disk → Fs → (ninodes b : ℕ) → (ℕ → Block) → Outcome Fs → Type 0
Frees d0 fs ninodes b view (ok fs') =
    let m = bitmap_block b ninodes in
    (marked view ninodes b ≡ true)
    × After d0 fs 1 (overlay view m (clear_bit (view m) (b % bits_per_block))) fs'
Frees d0 fs ninodes b view (panic m) = marked view ninodes b ≡ false
Frees d0 fs ninodes b view waits = ⊥

-- `bfree` after its reads.
module _ (fs : Fs) (b i : ℕ) (s : Store) where
  abbrev last_step : Bool → Outcome Fs
  last_step set =
      if not set
      then panic "freeing free block"
      else (log_block (put_data (on fs s) i (clear_bit (s.buf i).bytes (b % bits_per_block))) i
          >>= λ fs. release_block fs i)
