-- ===== src/Fs/Icache.antt =====
-- The inodes of src/fs.c, on the disk and in the cache: ialloc, iupdate, iget, idup, ilock, iunlock.
use pinky_os.Prelude.{
  ℕ, zero, suc, ◌+◌, ◌-◌, ◌*◌, ◌/◌, ◌%◌, ◌^◌, true, false, not, ◌&&◌, ◌||◌, Option, none, some,
  List, [], ◌∷◌, ltb, ◌==◌, if◌then◌else◌, replicate,
}
use pinky_os.Outcome.{Outcome, ok, panic, waits, ◌>>=◌}
use pinky_os.Ide.{Block}
use pinky_os.Ints.{int_at, set_int}
use pinky_os.Fs.{
  Inode, Fs, put_inode, read_block, release_block, log_block, data_of, put_data, readsb,
  inodes_per_block, inode_block,
}

-- NINODE and NDIRECT
abbrev pub ninode : ℕ
ninode = 50

abbrev pub ndirect : ℕ
ndirect = 12

-- `(struct dinode*) bp->data + inum % IPB`, as the number of its first word: a `struct dinode` is of
-- 16 words, the first two of two `short` fields each.
abbrev pub dinode : (inum : ℕ) → ℕ
dinode inum = inum % inodes_per_block * 16

abbrev pub low_half : ℕ → ℕ
low_half w = w % 2 ^ 16

abbrev pub high_half : ℕ → ℕ
high_half w = w / 2 ^ 16

-- n words from word w on.
unfoldable pub words_at : Block → (w n : ℕ) → List ℕ
words_at b w zero = []
words_at b w (suc n) = int_at b w ∷ words_at b (w + 1) n

unfoldable pub set_words : Block → (w : ℕ) → List ℕ → Block
set_words b w [] = b
set_words b w (v ∷ vs) = set_words (set_int b w v) (w + 1) vs

-- The fields of an inode as the disk has them.
unfoldable pub load_inode : Block → Inode → Inode
unfolding words_at
load_inode b ip =
    let w = dinode ip.inum in
    record ip {
      kind = low_half (int_at b w);
      major = high_half (int_at b w);
      minor = low_half (int_at b (w + 1));
      nlink = high_half (int_at b (w + 1));
      size = int_at b (w + 2);
      addrs = words_at b (w + 3) (ndirect + 1);
    }

unfoldable pub store_inode : Inode → Block → Block
unfolding set_words
store_inode ip b =
    set_words b (dinode ip.inum)
      ((ip.kind + 2 ^ 16 * ip.major) ∷ (ip.minor + 2 ^ 16 * ip.nlink) ∷ ip.size ∷ ip.addrs)

unfoldable pub iupdate : Fs → (ip : ℕ) → Outcome Fs
unfolding store_inode
iupdate fs ip = do
  (i, fs) ← read_block fs (fs.inode ip).dev (inode_block (fs.inode ip).inum)
  fs ← log_block (put_data fs i (store_inode (fs.inode ip) (data_of fs i))) i
  release_block fs i

-- The loop of `iget`: a slot that has the inode in use, and the first slot that is not in use, of
-- the n from i on.
unfoldable pub cached : (ℕ → Inode) → (dev inum i n : ℕ) → Option ℕ
cached inode dev inum i zero = none
cached inode dev inum i (suc n) =
    let rest = cached inode dev inum (i + 1) n in
    if ltb 0 (inode i).ref && (inode i).dev == dev && (inode i).inum == inum then some i else rest

unfoldable pub first_unused : (ℕ → Inode) → (i n : ℕ) → Option ℕ
first_unused inode i zero = none
first_unused inode i (suc n) =
    let rest = first_unused inode (i + 1) n in if (inode i).ref == 0 then some i else rest

unfoldable pub iget : Fs → (dev inum : ℕ) → Outcome (ℕ × Fs)
unfolding cached first_unused
iget fs dev inum = elim (cached fs.inode dev inum 0 ninode) [
  | some i ↦ ok (i, put_inode fs i (record (fs.inode i) { ref = (fs.inode i).ref + 1 }))
  | none ↦ elim (first_unused fs.inode 0 ninode) [
    | none ↦ panic "iget: no inodes"
    | some i ↦ ok (
      i,
      put_inode fs i
          (record (fs.inode i) { dev = dev; inum = inum; ref = 1; busy = false; valid = false }),
    )
  ]
]

-- The loop of `ialloc` from inode inum on, in n rounds.
unfoldable pub ialloc_from : Fs → (dev kind inum n : ℕ) → Outcome (ℕ × Fs)
unfolding set_words
ialloc_from fs dev kind inum zero = panic "ialloc: no inodes"
ialloc_from fs dev kind inum (suc n) = do
  (i, fs) ← read_block fs dev (inode_block inum)
  if low_half (int_at (data_of fs i) (dinode inum)) == 0
      then (do
        fs ←
            log_block
              (put_data fs i (set_words (data_of fs i) (dinode inum) (kind ∷ replicate 15 0))) i
        fs ← release_block fs i
        iget fs dev inum)
      else (release_block fs i >>= λ fs. ialloc_from fs dev kind (inum + 1) n)

unfoldable pub ialloc : Fs → (dev kind : ℕ) → Outcome (ℕ × Fs)
ialloc fs dev kind = do (sb, fs) ← readsb fs dev; ialloc_from fs dev kind 1 (sb.ninodes - 1)

unfoldable pub idup : Fs → (ip : ℕ) → Fs
idup fs ip = put_inode fs ip (record (fs.inode ip) { ref = (fs.inode ip).ref + 1 })

-- The end of `ilock`: the inode is read in unless it is valid.
unfoldable pub read_in : Fs → (ip : ℕ) → Outcome Fs
unfolding load_inode
read_in fs ip = if (fs.inode ip).valid then ok fs else (do
  (i, fs) ← read_block fs (fs.inode ip).dev (inode_block (fs.inode ip).inum)
  let loaded = load_inode (data_of fs i) (fs.inode ip)
  fs ← release_block fs i
  let fs = put_inode fs ip (record loaded { valid = true })
  if loaded.kind == 0 then panic "ilock: no type" else ok fs)

-- `ilock`; it waits while another process has the inode locked.
unfoldable pub ilock : Fs → (ip : ℕ) → Outcome Fs
ilock fs ip =
    if ltb (fs.inode ip).ref 1
    then panic "ilock"
    else if (fs.inode ip).busy
    then waits
    else read_in (put_inode fs ip (record (fs.inode ip) { busy = true })) ip

unfoldable pub iunlock : Fs → (ip : ℕ) → Outcome Fs
iunlock fs ip =
    if not (fs.inode ip).busy || ltb (fs.inode ip).ref 1
    then panic "iunlock"
    else ok (put_inode fs ip (record (fs.inode ip) { busy = false }))
