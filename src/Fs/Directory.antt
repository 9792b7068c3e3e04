-- ===== src/Fs/Directory.antt =====
-- Directories in src/fs.c: namecmp, dirlookup and dirlink.
use pinky_os.Prelude.{
  ℕ, zero, suc, ◌+◌, ◌*◌, ◌/◌, ◌%◌, ◌^◌, Bool, true, false, not, ◌&&◌, Option, none, some, List,
  ◌∷◌, ◌==◌, if◌then◌else◌, length, get_or,
}
use pinky_os.Outcome.{Outcome, ok, panic, ◌>>=◌}
use pinky_os.Int.{ℤ, pos, negsuc}
use pinky_os.Strings.{strncmp, strncpy}
use pinky_os.Fs.{Fs}
use pinky_os.Fs.Icache.{iget}
use pinky_os.Fs.Content.{Devices, drop, readi, writei, iput}

-- DIRSIZ and T_DIR
abbrev pub dirsiz : ℕ
dirsiz = 14

abbrev pub t_dir : ℕ
t_dir = 1

-- `namecmp(s, t) == 0`
abbrev is_zero : ℤ → Bool
is_zero (pos n) = n == 0
is_zero (negsuc n) = false

unfoldable pub same_name : List ℕ → List ℕ → Bool
same_name s t = is_zero (strncmp s t dirsiz)

-- `struct dirent`
pub record Dirent : Type 0 where
  pub inum : ℕ
  pub name : List ℕ

abbrev pub dirent_of : List ℕ → Dirent
dirent_of b = record { inum = get_or b 0 0 + 2 ^ 8 * get_or b 1 0; name = drop 2 b }

abbrev pub bytes_of : Dirent → List ℕ
bytes_of de = de.inum % 2 ^ 8 ∷ de.inum / 2 ^ 8 % 2 ^ 8 ∷ de.name

-- The entry at an offset, as the loops read it.
unfoldable pub read_entry : Devices → Fs → (dp off : ℕ) → Outcome (Dirent × Fs)
read_entry devices fs dp off = do
  (got, fs) ← readi devices fs dp off 16
  elim got [
    | none ↦ panic "dirlink read"
    | some b ↦ if length b == 16 then ok (dirent_of b, fs) else panic "dirlink read"
  ]

-- The entries that a size has room for.
abbrev pub entries : (size : ℕ) → ℕ
entries size = (size + 15) / 16

-- The loop of `dirlookup` from an offset on, in r rounds: the inode's slot and the offset.
unfoldable pub lookup_from :
    Devices → Fs → (dp : ℕ) → List ℕ → (off r : ℕ) → Outcome (Option (ℕ × ℕ) × Fs)
unfolding read_entry same_name
lookup_from devices fs dp name off zero = ok (none, fs)
lookup_from devices fs dp name off (suc r) = do
  (de, fs) ← read_entry devices fs dp off
  if not (de.inum == 0) && same_name name de.name
      then (do (ip, fs) ← iget fs (fs.inode dp).dev de.inum; ok (some (ip, off), fs))
      else lookup_from devices fs dp name (off + 16) r

unfoldable pub dirlookup : Devices → Fs → (dp : ℕ) → List ℕ → Outcome (Option (ℕ × ℕ) × Fs)
unfolding lookup_from
dirlookup devices fs dp name =
    if not ((fs.inode dp).kind == t_dir)
    then panic "dirlookup not DIR"
    else lookup_from devices fs dp name 0 (entries (fs.inode dp).size)

-- The loop of `dirlink`: the offset of the first empty entry, or where the entries end.
unfoldable pub empty_from : Devices → Fs → (dp off r : ℕ) → Outcome (ℕ × Fs)
empty_from devices fs dp off zero = ok (off, fs)
empty_from devices fs dp off (suc r) = do
  (de, fs) ← read_entry devices fs dp off
  if de.inum == 0 then ok (off, fs) else empty_from devices fs dp (off + 16) r

-- `dirlink`: whether the entry was written (0 or -1).
unfoldable pub dirlink : Devices → Fs → (dp : ℕ) → List ℕ → (inum : ℕ) → Outcome (Bool × Fs)
unfolding empty_from
dirlink devices fs dp name inum = do
  (found, fs) ← dirlookup devices fs dp name
  elim found [
    | some (ip, off) ↦ (do fs ← iput fs ip; ok (false, fs))
    | none ↦ (do
      (off, fs) ← empty_from devices fs dp 0 (entries (fs.inode dp).size)
      (done, fs) ←
          writei devices fs dp (bytes_of (record { inum = inum; name = strncpy name dirsiz })) off
      elim done [
        | none ↦ panic "dirlink"
        | some n ↦ if n == 16 then ok (true, fs) else panic "dirlink"
      ])
  ]
