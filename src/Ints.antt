-- ===== src/Ints.antt =====
-- `uint` and `int` fields in the bytes of a block: little-endian words of four bytes, as the casts
-- of `b->data` in src/log.c and src/fs.c read them.
use pinky_os.Prelude.{
  ℕ, ◌+◌, ◌*◌, ◌/◌, ◌%◌, ◌^◌, ◌<◌, ◌≡◌, ◌∙◌, ◌≢◌, arith, ◌==◌, if◌then◌else◌, length, get_or, set,
  length-set, get_or-set,
}
use pinky_os.Ide.{Block}

unfoldable pub int_at : Block → ℕ → ℕ
int_at b i =
    get_or b (4 * i) 0
    + 2 ^ 8 * get_or b (4 * i + 1) 0
    + 2 ^ 16 * get_or b (4 * i + 2) 0
    + 2 ^ 24 * get_or b (4 * i + 3) 0

unfoldable pub set_int : Block → ℕ → ℕ → Block
set_int b i v =
    set
      (set (set (set b (4 * i) (v % 2 ^ 8)) (4 * i + 1) (v / 2 ^ 8 % 2 ^ 8)) (4 * i + 2)
        (v / 2 ^ 16 % 2 ^ 8))
      (4 * i + 3) (v / 2 ^ 24 % 2 ^ 8)

pub length-set_int : (b : Block) (i v : ℕ) → length (set_int b i v) ≡ length b
unfolding set_int
length-set_int b i v = rw (length-set, length-set, length-set, length-set)

-- One byte after a chain of four writes.
byte-set_int :
    (b : Block) (i v k : ℕ)
    → 4 * i + 3 < length b
    → get_or (set_int b i v) k 0 ≡ (
        if k == 4 * i + 3
        then v / 2 ^ 24 % 2 ^ 8
        else if k == 4 * i + 2
        then v / 2 ^ 16 % 2 ^ 8
        else if k == 4 * i + 1
        then v / 2 ^ 8 % 2 ^ 8
        else if k == 4 * i
        then v % 2 ^ 8
        else get_or b k 0)
unfolding set_int
byte-set_int b i v k h =
    let b1 = set b (4 * i) (v % 2 ^ 8) in
    let b2 = set b1 (4 * i + 1) (v / 2 ^ 8 % 2 ^ 8) in
    let b3 = set b2 (4 * i + 2) (v / 2 ^ 16 % 2 ^ 8) in
    let l1 : length b1 ≡ length b = length-set b (4 * i) (v % 2 ^ 8) in
    let l2 : length b2 ≡ length b1 = length-set b1 (4 * i + 1) (v / 2 ^ 8 % 2 ^ 8) in
    let l3 : length b3 ≡ length b2 = length-set b2 (4 * i + 2) (v / 2 ^ 16 % 2 ^ 8) in
    get_or-set b3 (4 * i + 3) k (v / 2 ^ 24 % 2 ^ 8) (omega arith)
    ∙ rw (
      get_or-set b2 (4 * i + 2) k (v / 2 ^ 16 % 2 ^ 8) (omega arith),
      get_or-set b1 (4 * i + 1) k (v / 2 ^ 8 % 2 ^ 8) (omega arith),
      get_or-set b (4 * i) k (v % 2 ^ 8) (omega arith),
    )

bytes_of_word :
    (v : ℕ)
    → v < 2 ^ 32
    → v % 2 ^ 8
        + 2 ^ 8 * (v / 2 ^ 8 % 2 ^ 8)
        + 2 ^ 16 * (v / 2 ^ 16 % 2 ^ 8)
        + 2 ^ 24 * (v / 2 ^ 24 % 2 ^ 8)
      ≡ v
bytes_of_word v h = omega arith

-- A word that is written is read back.
pub int_at-set_int_self :
    (b : Block) (i v : ℕ) → 4 * i + 3 < length b → v < 2 ^ 32 → int_at (set_int b i v) i ≡ v
unfolding int_at
int_at-set_int_self b i v h small = grind (
  arith,
  byte-set_int b i v (4 * i) h,
  byte-set_int b i v (4 * i + 1) h,
  byte-set_int b i v (4 * i + 2) h,
  byte-set_int b i v (4 * i + 3) h,
  bytes_of_word v small,
)

-- The other words are as before.
pub int_at-set_int_ne :
    (b : Block) (i v j : ℕ) → 4 * i + 3 < length b → j ≢ i → int_at (set_int b i v) j ≡ int_at b j
unfolding int_at
int_at-set_int_ne b i v j h ne = grind (
  arith,
  byte-set_int b i v (4 * j) h,
  byte-set_int b i v (4 * j + 1) h,
  byte-set_int b i v (4 * j + 2) h,
  byte-set_int b i v (4 * j + 3) h,
)
