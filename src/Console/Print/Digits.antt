-- ===== src/Console/Print/Digits.antt =====
-- The digits that printint of src/console.c sends.
use pinky_os.Prelude.{
  ◌≢◌, ℕ, zero, suc, ◌+◌, ◌*◌, ◌/◌, ◌%◌, ◌<◌, ◌≡◌, ◌⊎◌, Bool, List, [], ◌∷◌, ◌++◌, ◌==◌,
  if◌then◌else◌, get_or,
}
use pinky_os.Console.Print.{hex_digits}
use pinky_os.Strings.Numbers.{value, digit_char, AllBelow, digits_text}

-- base ^ n
abbrev pub cap : (base n : ℕ) → ℕ
cap base zero = 1
cap base (suc n) = cap base n * base

abbrev pub IsBase : ℕ → Type 0
IsBase base = (base ≡ 10) ⊎ (base ≡ 16)

-- The digits of x, the first the most significant.
digit_list : (x base : ℕ) → (n : ℕ) → List ℕ
digit_list x base zero = []
digit_list x base (suc n) =
    (if x / base == 0 then [] else digit_list (x / base) base n) ++ x % base ∷ []

record Divided (base x : ℕ) : Type 0 where
  small : x % base < base
  low_digit : x % base < 16
  whole : x / base * base + x % base ≡ x
  half : (n : ℕ) → x < cap 2 (suc n) → x / base < cap 2 n
  part : (m : ℕ) → x < m * base → x / base < m

same_digit : ℕ → Bool
same_digit d = get_or hex_digits d 0 == digit_char d

-- No digit 0 in front of others.
abbrev pub NoLeadingZero : List ℕ → Type 0
NoLeadingZero [] = Unit {0}
NoLeadingZero (d ∷ []) = Unit {0}
NoLeadingZero (d ∷ (e ∷ ds)) = d ≢ 0

-- What is sent are the digits of the number, without zeros in front.
pub record Printed (xx base : ℕ) (out : List ℕ) : Type 0 where
  pub digits : List ℕ
  pub sent : out ≡ digits_text digits
  pub below : AllBelow base digits
  pub worth : value 0 digits base ≡ xx
  pub shortest : NoLeadingZero digits
