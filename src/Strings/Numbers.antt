-- ===== src/Strings/Numbers.antt =====
-- `strtoul` of src/lib/string.c. Its local `res` has no initial value: the model takes the value it
-- happens to have. `unsigned long` has 64 bits.
use native.Mathlib.Nat.{add-mul-mod_self_left}
use pinky_os.Prelude.{
  ℕ, suc, ◌+◌, ◌-◌, ◌*◌, ◌/◌, ◌%◌, ◌^◌, ◌≤◌, ◌<◌, ◌≡◌, refl, ap, inl, inr, Bool, true, false, ◌&&◌,
  Option, none, some, List, [], ◌∷◌, arith, ltb, leb, ◌==◌, if◌then◌else◌, Option-cases, length,
  passes, passes-lt,
}
use Prim.Native.Nat.{bit_or}

-- The value of a digit character, `none` for any other.
pub digit : ℕ → Option ℕ
digit c =
    let lc = bit_or c 0x20 in
    if leb b'0' c && leb c b'9'
    then some (c - b'0')
    else if leb b'a' lc && leb lc b'f'
    then some (lc - b'a' + 10)
    else none

abbrev below : ℕ → Option ℕ → Option ℕ
below base none = none
below base (some v) = if leb base v then none else some v

abbrev counted : ℕ × ℕ → ℕ × ℕ
counted out = (out.0, suc out.1)

-- The loop, from `res` on: the value, and how many characters `p` has passed.
unfoldable pub strtoul : (res : ℕ) → List ℕ → (base : ℕ) → ℕ × ℕ
unfolding digit
strtoul res [] base = (res, 0)
strtoul res (c ∷ s) base = if c == 0 then (res, 0) else elim (below base (digit c)) [
  | none ↦ (res, 1)
  | some v ↦ counted (strtoul ((res * base + v) % 2 ^ 64) s base)
]

-- The value of a list of digits, the first the most significant, behind a number.
abbrev pub value : ℕ → List ℕ → ℕ → ℕ
value acc [] base = acc
value acc (d ∷ ds) base = value (acc * base + d) ds base

abbrev pub digit_char : ℕ → ℕ
digit_char d = if ltb d 10 then b'0' + d else b'a' + d - 10

abbrev pub AllBelow : ℕ → List ℕ → Type 0
AllBelow base [] = Unit {0}
AllBelow base (d ∷ ds) = (d < base) × AllBelow base ds

unfoldable pub digits_text : List ℕ → List ℕ
digits_text [] = []
digits_text (d ∷ ds) = digit_char d ∷ digits_text ds

read_back : ℕ → Bool
unfolding digit
read_back d = elim (digit (digit_char d)) [ none ↦ false | some v ↦ v == d ]

read_back_table : passes read_back 16 ≡ true
unfolding passes read_back
read_back_table = refl

read_back-some : (d : ℕ) → read_back d ≡ true → digit (digit_char d) ≡ some d
unfolding read_back
read_back-some d h = elim (Option-cases (digit (digit_char d))) [
  | inl e ↦ cc
  | inr (v, e) ↦ ground arith
]

-- Every digit below 16 is read back from its character.
digit_table : (d : ℕ) → d < 16 → digit (digit_char d) ≡ some d
digit_table d h = read_back-some d (passes-lt read_back 16 d h read_back_table)

digit_cong :
    (a b base d : ℕ) → a % 2 ^ 64 ≡ b % 2 ^ 64 → (a * base + d) % 2 ^ 64 ≡ (b * base + d) % 2 ^ 64
digit_cong a b base d h = rw (split a, split b, h, add-mul-mod_self_left, add-mul-mod_self_left)
  where
    split : (x : ℕ) → x * base + d ≡ x % 2 ^ 64 * base + d + 2 ^ 64 * (x / 2 ^ 64 * base)
    split x =
        let e : x ≡ x % 2 ^ 64 + 2 ^ 64 * (x / 2 ^ 64) = omega arith in
        omega (arith, ap (λ (t : ℕ). t * base) e)

value_cong :
    (ds : List ℕ) (a b base : ℕ)
    → a % 2 ^ 64 ≡ b % 2 ^ 64
    → value a ds base % 2 ^ 64 ≡ value b ds base % 2 ^ 64
value_cong [] a b base h = h
value_cong (d ∷ ds) a b base h = value_cong ds _ _ base (digit_cong a b base d h)

digit_char-ne : (d : ℕ) → (digit_char d == 0) ≡ false
digit_char-ne d = ground arith

-- `strtoul` on the text of digits below the base reads all of it. What it returns is the number
-- that the digits continue from the value that `res` had, modulo 2^64.
pub strtoul-digits :
    (ds : List ℕ) (base res : ℕ)
    → base ≤ 16
    → AllBelow base ds
    → res < 2 ^ 64
    → strtoul res (digits_text ds) base ≡ (value res ds base % 2 ^ 64, length ds)
unfolding strtoul digits_text
strtoul-digits [] base res b h r = ap (λ n. (n, 0)) (omega arith)
strtoul-digits (d ∷ ds) base res b h r =
    let next = (res * base + d) % 2 ^ 64 in
    let ih = strtoul-digits ds base next b h.1 (omega arith) in
    let low : leb base d ≡ false = ground arith in
    rw (digit_char-ne d, digit_table d (omega arith), low, ih)
      (ap (λ n. (n, suc (length ds))) (value_cong ds next (res * base + d) base (omega arith)))
