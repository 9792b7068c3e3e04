-- ===== src/Ide.antt =====
-- The disk of src/memide.c: an image in memory, of 512-byte sectors, behind `iderw`.
use pinky_os.Prelude.{
  ℕ, Bool, true, false, not, ◌&&◌, List, [], leb, ◌==◌, if◌then◌else◌, length, get_or, set,
}
use pinky_os.Outcome.{Outcome, ok, panic}

-- The 512 bytes of a sector or of a buffer.
abbrev pub Block : Type 0
Block = List ℕ

-- `struct buf` of src/buf.h, its flags one by one. The links are in `Bio.Cache`.
pub record Buf : Type 0 where
  pub busy : Bool
  pub valid : Bool
  pub dirty : Bool
  pub dev : ℕ
  pub sector : ℕ
  pub bytes : Block

-- `memdisk`; `disksize` is its length.
abbrev pub Disk : Type 0
Disk = List Block

abbrev pub sector_at : Disk → ℕ → Block
sector_at d k = get_or d k []

-- `iderw`: the buffer and the disk afterwards.
unfoldable pub iderw : Buf → Disk → Outcome (Buf × Disk)
iderw b d =
    if not b.busy
    then panic "iderw: buf not busy"
    else if b.valid && not b.dirty
    then panic "iderw: nothing to do"
    else if not (b.dev == 1)
    then panic "iderw: request not for disk 1"
    else if leb (length d) b.sector
    then panic "iderw: sector out of range"
    else if b.dirty
    then ok (record b { dirty = false; valid = true }, set d b.sector b.bytes)
    else ok (record b { bytes = sector_at d b.sector; valid = true }, d)
