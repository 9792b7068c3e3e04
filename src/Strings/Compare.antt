-- ===== src/Strings/Compare.antt =====
-- `strncmp` and `memcmp` of src/lib/string.c decide equality of texts and of blocks.
use pinky_os.Prelude.{
  ℕ, zero, suc, min, ◌≡◌, refl, ◌↔◌, List, [], ◌∷◌, arith, ◌==◌, if◌then◌else◌, length, take,
}
use pinky_os.Int.{pos, eq_of_sub_zero, sub_self}
use pinky_os.Strings.{head, tail, strncmp, memcmp, strlen, strnlen}

-- The bytes before the terminator.
abbrev pub text : List ℕ → List ℕ
text [] = []
text (c ∷ s) = let rest = text s in if c == 0 then [] else c ∷ rest

-- At most n bytes of the text, read by `head` and `tail` as the code reads them.
abbrev pub prefix : List ℕ → ℕ → List ℕ
prefix s zero = []
prefix s (suc n) = let rest = prefix (tail s) n in if head s == 0 then [] else head s ∷ rest

prefix-nil : (n : ℕ) → prefix [] n ≡ []
prefix-nil zero = refl
prefix-nil (suc n) = refl

pub take-text : (n : ℕ) (s : List ℕ) → take n (text s) ≡ prefix s n
take-text zero s = refl
take-text (suc n) [] = refl
take-text (suc n) (c ∷ s) = ground (arith, take-text n s)

strncmp-prefix : (n : ℕ) (p q : List ℕ) → (strncmp p q n ≡ pos 0) ↔ (prefix p n ≡ prefix q n)
unfolding strncmp
strncmp-prefix zero p q = (λ e. refl, λ e. refl)
strncmp-prefix (suc n) p q = (
  λ e. ground (arith, strncmp-prefix n (tail p) (tail q), eq_of_sub_zero (head p) (head q)),
  λ e. ground (arith, strncmp-prefix n (tail p) (tail q), sub_self (head p)),
)

-- `strncmp` returns 0 exactly when the first n bytes of the two texts are the same.
pub strncmp_iff :
    (p q : List ℕ) (n : ℕ) → (strncmp p q n ≡ pos 0) ↔ (take n (text p) ≡ take n (text q))
strncmp_iff p q n = rw (take-text n p, take-text n q) (strncmp-prefix n p q)

-- `memcmp` of two blocks of n bytes returns 0 exactly when they are equal.
pub memcmp_iff :
    (p q : List ℕ) (n : ℕ) → length p ≡ n → length q ≡ n → (memcmp p q n ≡ pos 0) ↔ (p ≡ q)
unfolding memcmp
memcmp_iff [] [] zero a b = (λ e. refl, λ e. refl)
memcmp_iff [] q (suc n) a b = absurd (omega arith)
memcmp_iff (c ∷ p) q zero a b = absurd (omega arith)
memcmp_iff [] (d ∷ q) zero a b = absurd (omega arith)
memcmp_iff (c ∷ p) [] (suc n) a b = absurd (omega arith)
memcmp_iff (c ∷ p) (d ∷ q) (suc n) a b =
    let ih = memcmp_iff p q n (omega arith) (omega arith) in
    (λ e. ground (arith, ih, eq_of_sub_zero c d), λ e. ground (arith, ih, sub_self c))

strlen-text : (s : List ℕ) → strlen s ≡ length (text s)
unfolding strlen
strlen-text [] = refl
strlen-text (c ∷ s) = ground (arith, strlen-text s)

strnlen-min : (s : List ℕ) (n : ℕ) → strnlen s n ≡ min n (strlen s)
unfolding strnlen strlen
strnlen-min s zero = omega arith
strnlen-min [] (suc n) = omega arith
strnlen-min (c ∷ s) (suc n) = ground (arith, strnlen-min s n)

-- `strlen` is the length of the text, and `strnlen` the smaller of it and its bound.
pub strnlen-strlen :
    (s : List ℕ) (n : ℕ) → (strlen s ≡ length (text s)) × (strnlen s n ≡ min n (strlen s))
strnlen-strlen s n = (strlen-text s, strnlen-min s n)
