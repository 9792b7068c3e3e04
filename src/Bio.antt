-- ===== src/Bio.antt =====
-- The buffer cache of src/bio.c over the disk of src/memide.c. The doubly linked ring round
-- `bcache.head` is the list of its buffers' slots in `bcache.buf`, most recently used first.
pub mod Slots
pub mod Coherence
pub mod Settle
pub mod Get
pub mod Transfer
pub mod Rewrite
pub mod CopyOver
pub mod Mark
pub mod Look
pub mod Append
mod Tests
use pinky_os.Prelude.{
  ℕ, zero, suc, ◌+◌, ◌-◌, ◌*◌, ◌/◌, ◌%◌, ◌^◌, ◌≤◌, ◌<◌, min, ◌≡◌, refl, sym, ap, ◌∙◌, ◌≢◌, ◌↔◌, ◌⊎◌,
  inl, inr, Bool, true, false, not, ◌&&◌, ◌||◌, Option, none, some, List, [], ◌∷◌, ◌++◌, append-nil,
  append_assoc, arith, ltb, leb, ◌==◌, if◌then◌else◌, eq_of_test, ne_of_test, Bool-cases,
  Option-cases, length, get_or, set, take, replicate, length-append, length-set, length-replicate,
  get_or-set_self, get_or-set_ne,
}
use Prim.Native.String.{String}
use pinky_os.Outcome.{Outcome, ok, panic, waits, ◌>>=◌}
use pinky_os.Ide.{Block, Buf, Disk, iderw}

-- NBUF
abbrev pub nbuf : ℕ
nbuf = 10

-- (uint) -1, the device of a buffer that holds none
abbrev pub no_dev : ℕ
no_dev = 2 ^ 32 - 1

-- `bcache` and the disk below it.
pub record Store : Type 0 where
  pub buf : ℕ → Buf
  pub mru : List ℕ
  pub disk : Disk

abbrev pub update : (ℕ → Buf) → ℕ → Buf → ℕ → Buf
update f i b j = if j == i then b else f j

abbrev pub put_buf : Store → ℕ → Buf → Store
put_buf s i b = record s { buf = update s.buf i b }

-- The loop of `binit` at the slots below n: each goes to the head of the list.
abbrev pub link_slots : ℕ → List ℕ
link_slots zero = []
link_slots (suc n) = n ∷ link_slots n

unfoldable pub binit : Disk → Store
binit d = record {
  buf = λ i. record {
    busy = false;
    valid = false;
    dirty = false;
    dev = no_dev;
    sector = 0;
    bytes = replicate 512 0;
  };
  mru = link_slots nbuf;
  disk = d;
}

abbrev pub holds : Buf → (dev sector : ℕ) → Bool
holds b dev sector = b.dev == dev && b.sector == sector

-- The first loop of `bget`, from the head on.
unfoldable pub find : (ℕ → Buf) → (dev sector : ℕ) → List ℕ → Option ℕ
find buf dev sector [] = none
find buf dev sector (i ∷ is) =
    let rest = find buf dev sector is in if holds (buf i) dev sector then some i else rest

abbrev pub is_free : Buf → Bool
is_free b = not b.busy && not b.dirty

-- The second loop of `bget`, from the tail on: the last slot that is neither busy nor dirty.
unfoldable pub last_free : (ℕ → Buf) → List ℕ → Option ℕ
last_free buf [] = none
last_free buf (i ∷ is) = elim (last_free buf is) [
  | some j ↦ some j
  | none ↦ if is_free (buf i) then some i else none
]

-- `bget`; it waits where the code sleeps until the buffer is released, and then looks again.
unfoldable pub bget : Store → (dev sector : ℕ) → Outcome (ℕ × Store)
bget s dev sector = elim (find s.buf dev sector s.mru) [
  | some i ↦
      if (s.buf i).busy then waits else ok (i, put_buf s i (record (s.buf i) { busy = true }))
  | none ↦ elim (last_free s.buf s.mru) [
    | none ↦ panic "bget: no buffers"
    | some i ↦ ok (
      i,
      put_buf s i (record (s.buf i) {
        busy = true;
        valid = false;
        dirty = false;
        dev = dev;
        sector = sector;
      }),
    )
  ]
]

-- `iderw` on the buffer of a slot.
unfoldable pub sync : Store → ℕ → Outcome Store
sync s i = iderw (s.buf i) s.disk >>= λ (b, d). ok (record s { buf = update s.buf i b; disk = d })

-- The end of `bread`: read the buffer in unless it is valid.
unfoldable pub validate : Store → ℕ → Outcome (ℕ × Store)
validate s i = if (s.buf i).valid then ok (i, s) else (sync s i >>= λ t. ok (i, t))

unfoldable pub bread : Store → (dev sector : ℕ) → Outcome (ℕ × Store)
bread s dev sector = bget s dev sector >>= λ (i, t). validate t i

-- The caller of `bread` changes `b->data`.
abbrev pub fill : Store → ℕ → Block → Store
fill s i bytes = put_buf s i (record (s.buf i) { bytes = bytes })

unfoldable pub bwrite : Store → ℕ → Outcome Store
bwrite s i =
    if not (s.buf i).busy
    then panic "bwrite"
    else sync (put_buf s i (record (s.buf i) { dirty = true })) i

abbrev pub remove : ℕ → List ℕ → List ℕ
remove i [] = []
remove i (j ∷ js) = if j == i then remove i js else j ∷ remove i js

unfoldable pub brelse : Store → ℕ → Outcome Store
brelse s i =
    if not (s.buf i).busy
    then panic "brelse"
    else ok (record s {
      mru = i ∷ remove i s.mru;
      buf = update s.buf i (record (s.buf i) { busy = false });
    })
