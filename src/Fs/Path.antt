-- ===== src/Fs/Path.antt =====
-- Path names in src/fs.c: skipelem and namex. A path is the list of its bytes before the terminator.
use pinky_os.Prelude.{
  ℕ, zero, suc, Bool, true, false, not, ◌&&◌, Option, none, some, List, [], ◌∷◌, ◌==◌,
  if◌then◌else◌, length, take,
}
use pinky_os.Outcome.{Outcome, ok, waits, ◌>>=◌}
use pinky_os.Fs.{Fs}
use pinky_os.Fs.Icache.{iget, idup, ilock, iunlock}
use pinky_os.Fs.Content.{Devices, iput, iunlockput}
use pinky_os.Fs.Directory.{dirlookup, t_dir, dirsiz}

-- '/'
abbrev pub slash : ℕ
slash = 47

-- `while (*path == '/') path++`
unfoldable pub skip_slashes : List ℕ → List ℕ
skip_slashes [] = []
skip_slashes (c ∷ path) = if c == slash then skip_slashes path else c ∷ path

-- `while (*path != '/' && *path != 0) path++`: what it passes, and where it stops.
unfoldable pub element : List ℕ → List ℕ × List ℕ
element [] = ([], [])
element (c ∷ path) =
    let rest = element path in if c == slash then ([], c ∷ path) else (c ∷ rest.0, rest.1)

-- The end of `skipelem`, at a path without a leading slash.
unfoldable pub take_element : List ℕ → Option (List ℕ × List ℕ)
unfolding skip_slashes element
take_element [] = none
take_element (c ∷ path) =
    some (take dirsiz (element (c ∷ path)).0, skip_slashes (element (c ∷ path)).1)

-- `skipelem`: the name, of DIRSIZ bytes at most, and the path after it; or none for 0.
unfoldable pub skipelem : List ℕ → Option (List ℕ × List ℕ)
unfolding take_element
skipelem path = take_element (skip_slashes path)

-- What `namex` returns: the inode's slot and the last name.
abbrev pub Found : Type 0
Found = Option (ℕ × List ℕ) × Fs

-- The body of the loop of `namex`, with what follows it where it goes on to the next inode.
unfoldable pub namex_round :
    Devices
    → Fs
    → (ip : ℕ) → (nameiparent : Bool) → (List ℕ × List ℕ)
    → (Fs → ℕ → Outcome Found)
    → Outcome Found
namex_round devices fs ip parent (name, rest) go_on = do
  fs ← ilock fs ip
  if not ((fs.inode ip).kind == t_dir)
      then (do fs ← iunlockput fs ip; ok (none, fs))
      else if parent && length rest == 0
      then (do fs ← iunlock fs ip; ok (some (ip, name), fs))
      else (do
        (found, fs) ← dirlookup devices fs ip name
        elim found [
          | none ↦ (do fs ← iunlockput fs ip; ok (none, fs))
          | some (next, off) ↦ (do fs ← iunlockput fs ip; go_on fs next)
        ])

-- The end of `namex`, with no name left.
unfoldable pub namex_end : Fs → (ip : ℕ) → (nameiparent : Bool) → List ℕ → Outcome Found
namex_end fs ip true name = do fs ← iput fs ip; ok (none, fs)
namex_end fs ip false name = ok (some (ip, name), fs)

-- The loop of `namex`, in f rounds at most. A round too few is `waits`.
unfoldable pub namex_from :
    Devices → Fs → (ip : ℕ) → (nameiparent : Bool) → (f : ℕ) → (path name : List ℕ) → Outcome Found
unfolding namex_end
namex_from devices fs ip parent zero path name = waits
namex_from devices fs ip parent (suc f) path name = elim (skipelem path) [
  | none ↦ namex_end fs ip parent name
  | some out ↦
      namex_round devices fs ip parent out
        (λ fs next. namex_from devices fs next parent f out.1 out.0)
]

abbrev pub starts_at_root : List ℕ → Bool
starts_at_root [] = false
starts_at_root (c ∷ path) = c == slash

-- `namex`; `cwd` is `proc->cwd`. The root is inode ROOTINO of device ROOTDEV.
unfoldable pub namex : Devices → Fs → (cwd : ℕ) → List ℕ → (nameiparent : Bool) → Outcome Found
unfolding namex_from
namex devices fs cwd path parent = do
  (ip, fs) ← if starts_at_root path then iget fs 1 1 else ok (cwd, idup fs cwd)
  namex_from devices fs ip parent (suc (length path)) path []

unfoldable pub namei : Devices → Fs → (cwd : ℕ) → List ℕ → Outcome Found
namei devices fs cwd path = namex devices fs cwd path false

unfoldable pub nameiparent : Devices → Fs → (cwd : ℕ) → List ℕ → Outcome Found
nameiparent devices fs cwd path = namex devices fs cwd path true
