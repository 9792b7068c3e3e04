-- ===== src/File.antt =====
-- The file table of src/file.c: open files with counts of their holders, shared between processes by
-- `fork` and `dup`. `ftable.lock` is held throughout each call, up to the closing of what is under
-- the file.
pub mod Counts
mod Tests
use pinky_os.Prelude.{
  ℕ, zero, suc, ◌+◌, ◌-◌, ◌*◌, ◌/◌, ◌%◌, ◌^◌, ◌≤◌, ◌<◌, min, ◌≡◌, refl, sym, ap, ◌∙◌, ◌≢◌, ◌↔◌, ◌⊎◌,
  inl, inr, Bool, true, false, not, ◌&&◌, ◌||◌, Option, none, some, List, [], ◌∷◌, ◌++◌, append-nil,
  append_assoc, arith, ltb, leb, ◌==◌, if◌then◌else◌, eq_of_test, ne_of_test, test_of_ne, eq_self,
  Bool-cases, Option-cases, length, get_or, set, take, replicate, length-append, length-set,
  length-replicate, get_or-set_self, get_or-set_ne, get_or-set,
}
use pinky_os.Outcome.{Outcome, ok, panic}

-- NFILE
abbrev pub nfile : ℕ
nfile = 100

pub data Kind : Type 0 where
  fd_none fd_pipe fd_inode : Kind

-- `struct file`. The pipe and the inode are named by their places.
pub record File : Type 0 where
  pub kind : Kind
  pub ref : ℕ
  pub readable : Bool
  pub writable : Bool
  pub pipe : ℕ
  pub ip : ℕ
  pub off : ℕ

-- `ftable.file`
abbrev pub Table : Type 0
Table = ℕ → File

abbrev pub put : Table → ℕ → File → Table
put t i f j = if j == i then f else t j

-- The first of the n slots from i on that has no holder.
unfoldable pub first_free : Table → (i n : ℕ) → Option ℕ
first_free t i zero = none
first_free t i (suc n) =
    let rest = first_free t (i + 1) n in if (t i).ref == 0 then some i else rest

unfoldable pub filealloc : Table → Option (ℕ × Table)
filealloc t = elim (first_free t 0 nfile) [
  | none ↦ none
  | some i ↦ some (i, put t i (record (t i) { ref = 1 }))
]

unfoldable pub filedup : Table → ℕ → Outcome Table
filedup t i =
    if ltb (t i).ref 1 then panic "filedup" else ok (put t i (record (t i) { ref = (t i).ref + 1 }))

-- What `fileclose` goes on to do: nothing, `pipeclose` of a pipe's end, or `iput` of an inode.
pub data Under : Type 0 where
  nothing : Under
  close_pipe : (pipe : ℕ) (writable : Bool) → Under
  put_inode : ℕ → Under

abbrev pub under : File → Under
under f = elim f.kind [
  | fd_none ↦ nothing
  | fd_pipe ↦ close_pipe f.pipe f.writable
  | fd_inode ↦ put_inode f.ip
]

unfoldable pub fileclose : Table → ℕ → Outcome (Under × Table)
fileclose t i =
    if ltb (t i).ref 1
    then panic "fileclose"
    else if ltb 0 ((t i).ref - 1)
    then ok (nothing, put t i (record (t i) { ref = (t i).ref - 1 }))
    else ok (under (t i), put t i (record (t i) { ref = 0; kind = fd_none }))
