-- ===== src/Fs/Tests.antt =====
-- Runs of src/fs.c at concrete blocks and paths, and the theorems about it applied to them.
use pinky_os.Prelude.{
  ap, ℕ, ◌%◌, ◌^◌, ◌<◌, ◌≡◌, refl, sym, ◌∙◌, ◌≢◌, true, false, none, some, List, [], ◌∷◌, arith,
  ◌==◌, if◌then◌else◌, get_or, replicate,
}
use mathlib.Core.Path.{ap}
use pinky_os.Ide.{Block, Disk}
use pinky_os.Ints.{int_at}
use pinky_os.Bio.{binit}
use pinky_os.Fs.{int_at, Inode, Fs, clear_from}
use pinky_os.Fs.Icache.{load_inode, store_inode, iget}
use pinky_os.Fs.Content.{Devices}
use pinky_os.Fs.Path.{skipelem}
use pinky_os.Fs.Names.{names, parts, names_lem}
use pinky_os.Fs.Cache.{IsUnique, Gets, iget_lem}
use pinky_os.Fs.Inodes.{Fits, load_inode-store_inode}

-- "/a//bc"
abbrev path : List ℕ
path = b'/' ∷ b'a' ∷ b'/' ∷ b'/' ∷ b'b' ∷ b'c' ∷ []

skipelem_runs : skipelem path ≡ some (b'a' ∷ [], b'b' ∷ b'c' ∷ [])
unfolding skipelem
skipelem_runs = refl

parts_runs : parts [] path ≡ (b'a' ∷ []) ∷ (b'b' ∷ b'c' ∷ []) ∷ []
unfolding parts
parts_runs = refl

names_lem_example : names 7 path ≡ parts [] path
names_lem_example = names_lem 7 path (omega arith)

-- Slot 3 has inode 1 of device 1; the other slots are not in use.
abbrev slots : ℕ → Inode
slots i = record {
  dev = 1;
  inum = 1;
  ref = if i == 3 then 2 else 0;
  busy = false;
  valid = i == 3;
  kind = 1;
  major = 0;
  minor = 0;
  nlink = 1;
  size = 512;
  addrs = replicate 13 9;
}

abbrev fs : Fs
fs = record {
  store = binit (replicate 8 (replicate 512 0));
  log = record { start = 4; size = 3; busy = true; dev = 1; n = 0; sectors = replicate 10 0 };
  inode = slots;
}

-- No driver.
abbrev devices : Devices
devices = record { reads = λ major. none; writes = λ major. none }

used_slot : (i : ℕ) → 0 < (slots i).ref → i ≡ 3
used_slot i h = ground arith

slots-IsUnique : IsUnique slots
slots-IsUnique dev inum i j h k = used_slot i h.1 ∙ sym (used_slot j k.1)

iget_lem_example : Gets fs 1 2 (iget fs 1 2)
iget_lem_example = iget_lem fs 1 2 slots-IsUnique

-- A bitmap with its first nine bits set.
abbrev bitmap : Block
bitmap = 255 ∷ 1 ∷ replicate 510 0

bitmap_found : clear_from bitmap 0 4096 ≡ some 9
unfolding clear_from
bitmap_found = refl

nines : (i : ℕ) → get_or (replicate 13 9) i 0 < 2 ^ 32
nines i = ground arith

slot-Fits : Fits (slots 3)
slot-Fits = record {
  kind = omega arith;
  major = omega arith;
  minor = omega arith;
  nlink = omega arith;
  size = omega arith;
  count = refl;
  addrs = nines;
}

load_inode-store_inode_example :
    ((slots 0).inum ≡ (slots 3).inum
      → load_inode (store_inode (slots 3) (replicate 512 0)) (slots 0)
        ≡ record (slots 3) { dev = 1; ref = 0; busy = false; valid = false })
    × ((slots 0).inum % 8 ≢ (slots 3).inum % 8
        → load_inode (store_inode (slots 3) (replicate 512 0)) (slots 0)
          ≡ load_inode (replicate 512 0) (slots 0))
load_inode-store_inode_example =
    load_inode-store_inode (slots 3) (slots 0) (replicate 512 0) refl slot-Fits

-- A disk of 16 sectors without inodes, whose bitmap, sector 3, marks all but block 4, and whose log
-- starts at sector 5.
abbrev little : Disk
little =
    replicate 512 0
    ∷ (16 ∷ 0 ∷ 0 ∷ 0 ∷ replicate 508 0)
    ∷ replicate 512 0
    ∷ (239 ∷ 255 ∷ replicate 510 0)
    ∷ replicate 12 (replicate 512 0)

abbrev mounted : Fs
mounted = record {
  store = binit little;
  log = record { start = 5; size = 11; busy = true; dev = 1; n = 0; sectors = replicate 10 0 };
  inode = slots;
}
