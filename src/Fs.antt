-- ===== src/Fs.antt =====
-- The file system of src/fs.c: its blocks and on-disk inodes, over the buffer cache and the log.
pub mod Icache
pub mod Content
pub mod Directory
pub mod Path
pub mod Names
pub mod Cache
pub mod Bitmap
pub mod Inodes
pub mod Transact
pub mod Alloc
pub mod Free
mod Tests
use pinky_os.Prelude.{
  ℕ, zero, suc, ◌+◌, ◌-◌, ◌*◌, ◌/◌, ◌%◌, ◌^◌, ◌≤◌, ◌<◌, min, ◌≡◌, refl, sym, ap, ◌∙◌, ◌≢◌, ◌↔◌, ◌⊎◌,
  inl, inr, Bool, true, false, not, ◌&&◌, ◌||◌, Option, none, some, List, [], ◌∷◌, ◌++◌, append-nil,
  append_assoc, arith, ltb, leb, ◌==◌, if◌then◌else◌, eq_of_test, ne_of_test, test_of_ne, eq_self,
  Bool-cases, Option-cases, length, get_or, set, take, replicate, length-append, length-set,
  length-replicate, get_or-set_self, get_or-set_ne, get_or-set,
}
use pinky_os.Outcome.{Outcome, ok, panic, ◌>>=◌}
use pinky_os.Ide.{Block}
use pinky_os.Bio.{Store, bread, brelse, fill}
use pinky_os.Ints.{int_at, set_int}
use pinky_os.Log.{Log, log_write}

-- `struct inode`; `busy` and `valid` are the flags I_BUSY and I_VALID.
pub record Inode : Type 0 where
  pub dev : ℕ
  pub inum : ℕ
  pub ref : ℕ
  pub busy : Bool
  pub valid : Bool
  pub kind : ℕ  -- `type`
  pub major : ℕ
  pub minor : ℕ
  pub nlink : ℕ
  pub size : ℕ
  pub addrs : List ℕ

-- The cache of blocks, the log, and `icache.inode`.
pub record Fs : Type 0 where
  pub store : Store
  pub log : Log
  pub inode : ℕ → Inode

abbrev pub put_inode : Fs → ℕ → Inode → Fs
put_inode fs i ip = record fs { inode = λ j. if j == i then ip else fs.inode j }

-- `bread`, `brelse` and `log_write`, and the bytes of a buffer that is held.
abbrev pub read_block : Fs → (dev sector : ℕ) → Outcome (ℕ × Fs)
read_block fs dev k = do (i, s) ← bread fs.store dev k; ok (i, record fs { store = s })

abbrev pub release_block : Fs → (buf : ℕ) → Outcome Fs
release_block fs i = do s ← brelse fs.store i; ok (record fs { store = s })

abbrev pub log_block : Fs → (buf : ℕ) → Outcome Fs
log_block fs i = do (lg, s) ← log_write fs.store fs.log i; ok (record fs { store = s; log = lg })

abbrev pub data_of : Fs → (buf : ℕ) → Block
data_of fs i = (fs.store.buf i).bytes

abbrev pub put_data : Fs → (buf : ℕ) → Block → Fs
put_data fs i bytes = record fs { store = fill fs.store i bytes }

-- `struct superblock`
pub record Super : Type 0 where
  pub size : ℕ
  pub nblocks : ℕ
  pub ninodes : ℕ
  pub nlog : ℕ

abbrev pub super_of : Block → Super
super_of b = record {
  size = int_at b 0;
  nblocks = int_at b 1;
  ninodes = int_at b 2;
  nlog = int_at b 3;
}

unfoldable pub readsb : Fs → (dev : ℕ) → Outcome (Super × Fs)
readsb fs dev = do
  (i, fs) ← read_block fs dev 1
  let sb = super_of (data_of fs i)
  fs ← release_block fs i
  ok (sb, fs)

unfoldable pub bzero : Fs → (dev bno : ℕ) → Outcome Fs
bzero fs dev bno = do
  (i, fs) ← read_block fs dev bno
  fs ← log_block (put_data fs i (replicate 512 0)) i
  release_block fs i

-- BPB and IPB
abbrev pub bits_per_block : ℕ
bits_per_block = 512 * 8

abbrev pub inodes_per_block : ℕ
inodes_per_block = 8

-- BBLOCK and IBLOCK
abbrev pub bitmap_block : (b ninodes : ℕ) → ℕ
bitmap_block b ninodes = b / bits_per_block + ninodes / inodes_per_block + 3

abbrev pub inode_block : ℕ → ℕ
inode_block i = i / inodes_per_block + 2

-- `data[bi / 8] & (1 << bi % 8)`, and the same bit set or cleared.
unfoldable pub bit_at : Block → (bi : ℕ) → Bool
bit_at b bi = not (get_or b (bi / 8) 0 / 2 ^ (bi % 8) % 2 == 0)

unfoldable pub set_bit : Block → (bi : ℕ) → Block
set_bit b bi = if bit_at b bi then b else set b (bi / 8) (get_or b (bi / 8) 0 + 2 ^ (bi % 8))

unfoldable pub clear_bit : Block → (bi : ℕ) → Block
clear_bit b bi = if bit_at b bi then set b (bi / 8) (get_or b (bi / 8) 0 - 2 ^ (bi % 8)) else b

-- The inner loop of `balloc`: the first clear bit of the n from bi on.
unfoldable pub clear_from : Block → (bi n : ℕ) → Option ℕ
unfolding bit_at
clear_from b bi zero = none
clear_from b bi (suc n) =
    let rest = clear_from b (bi + 1) n in if not (bit_at b bi) then some bi else rest

-- What `balloc` does with the block of the bitmap that it has read.
unfoldable pub take_bit : Fs → (dev b buf : ℕ) → (bi : ℕ) → Outcome (ℕ × Fs)
unfolding set_bit
take_bit fs dev b i bi = do
  fs ← log_block (put_data fs i (set_bit (data_of fs i) bi)) i
  fs ← release_block fs i
  fs ← bzero fs dev (b + bi)
  ok (b + bi, fs)

-- The outer loop of `balloc` from block b on, in n rounds.
unfoldable pub balloc_from : Fs → (dev : ℕ) → Super → (b n : ℕ) → Outcome (ℕ × Fs)
balloc_from fs dev sb b zero = panic "balloc: out of blocks"
balloc_from fs dev sb b (suc n) = do
  (i, fs) ← read_block fs dev (bitmap_block b sb.ninodes)
  elim (clear_from (data_of fs i) 0 (min bits_per_block (sb.size - b))) [
    | some bi ↦ take_bit fs dev b i bi
    | none ↦ release_block fs i >>= λ fs. balloc_from fs dev sb (b + bits_per_block) n
  ]

unfoldable pub balloc : Fs → (dev : ℕ) → Outcome (ℕ × Fs)
balloc fs dev = do
  (sb, fs) ← readsb fs dev
  balloc_from fs dev sb 0 ((sb.size + (bits_per_block - 1)) / bits_per_block)

unfoldable pub bfree : Fs → (dev b : ℕ) → Outcome Fs
unfolding clear_bit
bfree fs dev b = do
  (sb, fs) ← readsb fs dev
  (i, fs) ← read_block fs dev (bitmap_block b sb.ninodes)
  let bi = b % bits_per_block
  if not (bit_at (data_of fs i) bi)
      then panic "freeing free block"
      else (log_block (put_data fs i (clear_bit (data_of fs i) bi)) i >>= λ fs. release_block fs i)
