-- ===== src/Fs/Content.antt =====
-- The contents of files in src/fs.c: bmap, itrunc, iput, stati, readi and writei.
use pinky_os.Prelude.{
  ℕ, zero, suc, ◌+◌, ◌-◌, ◌*◌, ◌/◌, ◌%◌, ◌^◌, min, true, false, ◌&&◌, ◌||◌, Option, none, some,
  List, [], ◌∷◌, ◌++◌, ltb, leb, ◌==◌, if◌then◌else◌, length, get_or, set, take,
}
use pinky_os.Outcome.{Outcome, ok, panic, ◌>>=◌}
use pinky_os.Ide.{Block}
use pinky_os.Ints.{int_at, set_int}
use pinky_os.Fs.{
  Inode, Fs, put_inode, read_block, release_block, log_block, data_of, put_data, balloc, bfree,
}
use pinky_os.Fs.Icache.{ndirect, words_at, iupdate, iunlock}

-- NINDIRECT
abbrev pub nindirect : ℕ
nindirect = 128

abbrev pub set_addr : Fs → (ip bn addr : ℕ) → Fs
set_addr fs ip bn addr =
    put_inode fs ip (record (fs.inode ip) { addrs = set (fs.inode ip).addrs bn addr })

-- `if ((addr = ip->addrs[bn]) == 0) ip->addrs[bn] = addr = balloc(ip->dev)`
unfoldable pub addr_or_new : Fs → (ip bn : ℕ) → Outcome (ℕ × Fs)
addr_or_new fs ip bn =
    let addr = get_or (fs.inode ip).addrs bn 0 in
    if addr == 0
    then (balloc fs (fs.inode ip).dev >>= λ (new, fs). ok (new, set_addr fs ip bn new))
    else ok (addr, fs)

-- The block's number in the indirect block that is held in `buf`.
unfoldable pub indirect_or_new : Fs → (ip buf bn : ℕ) → Outcome (ℕ × Fs)
indirect_or_new fs ip i bn =
    let addr = int_at (data_of fs i) bn in
    if addr == 0
    then (do
      (new, fs) ← balloc fs (fs.inode ip).dev
      fs ← log_block (put_data fs i (set_int (data_of fs i) bn new)) i
      ok (new, fs))
    else ok (addr, fs)

unfoldable pub bmap : Fs → (ip bn : ℕ) → Outcome (ℕ × Fs)
unfolding addr_or_new indirect_or_new
bmap fs ip bn =
    if ltb bn ndirect
    then addr_or_new fs ip bn
    else if ltb (bn - ndirect) nindirect
    then (do
      (addr, fs) ← addr_or_new fs ip ndirect
      (i, fs) ← read_block fs (fs.inode ip).dev addr
      (found, fs) ← indirect_or_new fs ip i (bn - ndirect)
      fs ← release_block fs i
      ok (found, fs))
    else panic "bmap: out of range"

-- The first loop of `itrunc`, at the n direct blocks from i on.
unfoldable pub free_direct : Fs → (ip i n : ℕ) → Outcome Fs
free_direct fs ip i zero = ok fs
free_direct fs ip i (suc n) =
    let addr = get_or (fs.inode ip).addrs i 0 in
    if addr == 0
    then free_direct fs ip (i + 1) n
    else bfree fs (fs.inode ip).dev addr >>= λ fs. free_direct (set_addr fs ip i 0) ip (i + 1) n

-- Its second loop, over the numbers in the indirect block.
unfoldable pub free_blocks : Fs → (dev : ℕ) → List ℕ → Outcome Fs
free_blocks fs dev [] = ok fs
free_blocks fs dev (a ∷ addrs) =
    if a == 0 then free_blocks fs dev addrs else bfree fs dev a >>= λ fs. free_blocks fs dev addrs

unfoldable pub free_indirect : Fs → (ip : ℕ) → Outcome Fs
unfolding free_blocks words_at
free_indirect fs ip =
    let addr = get_or (fs.inode ip).addrs ndirect 0 in
    if addr == 0 then ok fs else (do
      (i, fs) ← read_block fs (fs.inode ip).dev addr
      fs ← free_blocks fs (fs.inode ip).dev (words_at (data_of fs i) 0 nindirect)
      fs ← release_block fs i
      fs ← bfree fs (fs.inode ip).dev addr
      ok (set_addr fs ip ndirect 0))

unfoldable pub itrunc : Fs → (ip : ℕ) → Outcome Fs
unfolding free_direct free_indirect
itrunc fs ip = do
  fs ← free_direct fs ip 0 ndirect
  fs ← free_indirect fs ip
  iupdate (put_inode fs ip (record (fs.inode ip) { size = 0 })) ip

-- `ip->ref--`, of an `int`.
abbrev pub drop_ref : Fs → (ip : ℕ) → Fs
drop_ref fs ip = put_inode fs ip (record (fs.inode ip) { ref = (fs.inode ip).ref - 1 })

-- `iput`, of an inode that has a reference.
unfoldable pub iput : Fs → (ip : ℕ) → Outcome Fs
iput fs ip =
    let p = fs.inode ip in
    if p.ref == 1 && p.valid && p.nlink == 0
    then if p.busy then panic "iput busy" else (do
      fs ← itrunc (put_inode fs ip (record p { busy = true })) ip
      fs ← iupdate (put_inode fs ip (record (fs.inode ip) { kind = 0 })) ip
      ok (drop_ref (put_inode fs ip (record (fs.inode ip) { busy = false; valid = false })) ip))
    else ok (drop_ref fs ip)

unfoldable pub iunlockput : Fs → (ip : ℕ) → Outcome Fs
iunlockput fs ip = do fs ← iunlock fs ip; iput fs ip

-- `struct stat`
pub record Stat : Type 0 where
  pub kind : ℕ  -- `type`
  pub dev : ℕ
  pub ino : ℕ
  pub nlink : ℕ
  pub size : ℕ

abbrev pub stati : Inode → Stat
stati ip = record { kind = ip.kind; dev = ip.dev; ino = ip.inum; nlink = ip.nlink; size = ip.size }

abbrev pub drop : ℕ → List ℕ → List ℕ
drop zero xs = xs
drop (suc n) [] = []
drop (suc n) (x ∷ xs) = drop n xs

-- T_DEV and NDEV
abbrev pub t_dev : ℕ
t_dev = 3

abbrev pub ndev : ℕ
ndev = 10

-- `devsw`: the functions that drivers have set, given the inode and n, or the bytes.
pub record Devices : Type 0 where
  pub reads : ℕ → Option (Fs → (ip n : ℕ) → Outcome (Option (List ℕ) × Fs))
  pub writes : ℕ → Option (Fs → (ip : ℕ) → List ℕ → Outcome (Option ℕ × Fs))

-- The blocks that n bytes from an offset on lie in.
abbrev pub blocks : (off n : ℕ) → ℕ
blocks off n = if n == 0 then 0 else (off % 512 + n + 511) / 512

-- How many of n bytes are in the block of the offset.
abbrev pub chunk : (off n : ℕ) → ℕ
chunk off n = min n (512 - off % 512)

-- The loop of `readi` in r rounds: the n bytes from an offset on.
unfoldable pub read_from : Fs → (ip off n r : ℕ) → Outcome (List ℕ × Fs)
read_from fs ip off n zero = ok ([], fs)
read_from fs ip off n (suc r) = do
  (addr, fs) ← bmap fs ip (off / 512)
  (i, fs) ← read_block fs (fs.inode ip).dev addr
  let bytes = take (chunk off n) (drop (off % 512) (data_of fs i))
  fs ← release_block fs i
  (rest, fs) ← read_from fs ip (off + chunk off n) (n - chunk off n) r
  ok (bytes ++ rest, fs)

-- `readi`: the bytes, or none for -1.
unfoldable pub readi : Devices → Fs → (ip off n : ℕ) → Outcome (Option (List ℕ) × Fs)
unfolding read_from
readi devices fs ip off n =
    let size = (fs.inode ip).size in
    if (fs.inode ip).kind == t_dev
    then if leb ndev (fs.inode ip).major
      then ok (none, fs)
      else elim (devices.reads (fs.inode ip).major) [
        | none ↦ ok (none, fs)
        | some read ↦ read fs ip n
      ]
    else if ltb size off || ltb ((off + n) % 2 ^ 32) off
    then ok (none, fs)
    else let n = if ltb size (off + n) then size - off else n in
      read_from fs ip off n (blocks off n) >>= λ (bytes, fs). ok (some bytes, fs)

-- `memmove` of bytes into a block from a place on.
abbrev pub splice : (at : ℕ) → List ℕ → Block → Block
splice at [] b = b
splice at (x ∷ xs) b = splice (at + 1) xs (set b at x)

-- The loop of `writei` in r rounds.
unfoldable pub write_from : Fs → (ip off : ℕ) → List ℕ → (r : ℕ) → Outcome Fs
write_from fs ip off src zero = ok fs
write_from fs ip off src (suc r) = do
  let m = chunk off (length src)
  (addr, fs) ← bmap fs ip (off / 512)
  (i, fs) ← read_block fs (fs.inode ip).dev addr
  fs ← log_block (put_data fs i (splice (off % 512) (take m src) (data_of fs i))) i
  fs ← release_block fs i
  write_from fs ip (off + m) (drop m src) r

-- The end of `writei`: the file may have grown.
unfoldable pub grow : Fs → (ip off n : ℕ) → Outcome Fs
grow fs ip off n =
    if ltb 0 n && ltb (fs.inode ip).size off
    then iupdate (put_inode fs ip (record (fs.inode ip) { size = off })) ip
    else ok fs

-- `writei`: n, or none for -1.
unfoldable pub writei : Devices → Fs → (ip : ℕ) → List ℕ → (off : ℕ) → Outcome (Option ℕ × Fs)
unfolding write_from grow
writei devices fs ip src off =
    let n = length src in
    if (fs.inode ip).kind == t_dev
    then if leb ndev (fs.inode ip).major
      then ok (none, fs)
      else elim (devices.writes (fs.inode ip).major) [
        | none ↦ ok (none, fs)
        | some write ↦ write fs ip src
      ]
    else if ltb (fs.inode ip).size off || ltb ((off + n) % 2 ^ 32) off
    then ok (none, fs)
    else if ltb ((ndirect + nindirect) * 512) (off + n)
    then ok (none, fs)
    else (do
      fs ← write_from fs ip off src (blocks off n)
      fs ← grow fs ip (off + n) n
      ok (some n, fs))
