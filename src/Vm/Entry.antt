-- ===== src/Vm/Entry.antt =====
-- The entry of a page that mappages of src/vm.c joins with `|`, and its parts.
use pinky_os.Prelude.{
  ℕ, zero, suc, ◌+◌, ◌*◌, ◌/◌, ◌%◌, ◌≤◌, ◌<◌, ◌≡◌, refl, ap, ◌∙◌, ◌⊎◌, inl, inr, true, arith,
}
use Prim.Native.Nat.{bit_or, bit_or-bitwise, digits, max}
use pinky_os.Vm.{is_on, page_entry, pte_ap, pte_addr}

abbrev or_digits : ℕ → ℕ → ℕ → ℕ
or_digits n a b = digits (λ b. b) max n a b

or_digits_enough : (n m a b : ℕ) → a ≤ n → a ≤ m → or_digits n a b ≡ or_digits m a b
or_digits_enough zero zero a b p q = refl
or_digits_enough zero (suc m) zero b p q = refl
or_digits_enough zero (suc m) (suc a) b p q = absurd (omega arith)
or_digits_enough (suc n) zero zero b p q = refl
or_digits_enough (suc n) zero (suc a) b p q = absurd (omega arith)
or_digits_enough (suc n) (suc m) zero b p q = refl
or_digits_enough (suc n) (suc m) (suc a) b p q =
    omega (arith, or_digits_enough n m (suc a / 2) (b / 2) (omega arith) (omega arith))

zero-bit_or : (b : ℕ) → bit_or 0 b ≡ b
zero-bit_or b = bit_or-bitwise 0 b

-- The lowest bit apart.
bit_or_halves : (a b : ℕ) → bit_or a b ≡ bit_or (a / 2) (b / 2) * 2 + max (a % 2) (b % 2)
bit_or_halves zero b = omega (arith, zero-bit_or b, zero-bit_or (b / 2))
bit_or_halves (suc a) b = omega (
  arith,
  bit_or-bitwise (suc a) b,
  bit_or-bitwise (suc a / 2) (b / 2),
  or_digits_enough a (suc a / 2) (suc a / 2) (b / 2) (omega arith) (omega arith),
)

bit_or-zero_below : (n a : ℕ) → a ≤ n → bit_or a 0 ≡ a
bit_or-zero_below n zero h = refl
bit_or-zero_below zero (suc a) h = absurd (omega arith)
bit_or-zero_below (suc n) (suc a) h =
    omega (arith, bit_or_halves (suc a) 0, bit_or-zero_below n (suc a / 2) (omega arith))

bit_or-zero : (a : ℕ) → bit_or a 0 ≡ a
bit_or-zero a = bit_or-zero_below a a (omega arith)

bit_or_cong : (a b c d : ℕ) → a ≡ b → c ≡ d → bit_or a c ≡ bit_or b d
bit_or_cong a b c d p q = ap (λ (x : ℕ). bit_or x c) p ∙ ap (bit_or b) q

-- The numbers below k, and the rest of the bits, apart.
abbrev Splits : ℕ → Type 0
Splits k = (a b : ℕ) → bit_or a b ≡ bit_or (a / k) (b / k) * k + bit_or (a % k) (b % k)

Splits-2 : Splits 2
Splits-2 a b =
    let low = bit_or_halves (a % 2) (b % 2) in
    let none_left : bit_or (a % 2 / 2) (b % 2 / 2) ≡ 0 =
      bit_or_cong (a % 2 / 2) 0 (b % 2 / 2) 0 (omega arith) (omega arith) in
    omega (arith, bit_or_halves a b)

Splits-4 : Splits 4
Splits-4 a b =
    let high = bit_or_cong (a / 2 / 2) (a / 4) (b / 2 / 2) (b / 4) (omega arith) (omega arith) in
    let mid =
      bit_or_cong (a % 4 / 2) (a / 2 % 2) (b % 4 / 2) (b / 2 % 2) (omega arith) (omega arith) in
    let low = bit_or_cong (a % 4 % 2) (a % 2) (b % 4 % 2) (b % 2) (omega arith) (omega arith) in
    omega (arith, Splits-2 a b, Splits-2 (a / 2) (b / 2), Splits-2 (a % 4) (b % 4), high, mid, low)

Splits-16 : Splits 16
Splits-16 a b =
    let high = bit_or_cong (a / 4 / 4) (a / 16) (b / 4 / 4) (b / 16) (omega arith) (omega arith) in
    let mid =
      bit_or_cong (a % 16 / 4) (a / 4 % 4) (b % 16 / 4) (b / 4 % 4) (omega arith) (omega arith) in
    let low = bit_or_cong (a % 16 % 4) (a % 4) (b % 16 % 4) (b % 4) (omega arith) (omega arith) in
    omega
      (arith, Splits-4 a b, Splits-4 (a / 4) (b / 4), Splits-4 (a % 16) (b % 16), high, mid, low)

Splits-256 : Splits 256
Splits-256 a b =
    let high =
      bit_or_cong (a / 16 / 16) (a / 256) (b / 16 / 16) (b / 256) (omega arith) (omega arith) in
    let mid =
      bit_or_cong (a % 256 / 16) (a / 16 % 16) (b % 256 / 16) (b / 16 % 16) (omega arith)
        (omega arith) in
    let low =
      bit_or_cong (a % 256 % 16) (a % 16) (b % 256 % 16) (b % 16) (omega arith) (omega arith) in
    omega (
      arith,
      Splits-16 a b,
      Splits-16 (a / 16) (b / 16),
      Splits-16 (a % 256) (b % 256),
      high,
      mid,
      low,
    )

Splits-4096 : Splits 4096
Splits-4096 a b =
    let high =
      bit_or_cong (a / 256 / 16) (a / 4096) (b / 256 / 16) (b / 4096) (omega arith) (omega arith) in
    let mid =
      bit_or_cong (a % 4096 / 256) (a / 256 % 16) (b % 4096 / 256) (b / 256 % 16) (omega arith)
        (omega arith) in
    let low =
      bit_or_cong (a % 4096 % 256) (a % 256) (b % 4096 % 256) (b % 256) (omega arith)
        (omega arith) in
    omega (
      arith,
      Splits-256 a b,
      Splits-16 (a / 256) (b / 256),
      Splits-256 (a % 4096) (b % 4096),
      high,
      mid,
      low,
    )

-- Bits below 4096 joined to the address of a page.
or_low : (x q c d : ℕ) → x ≡ q * 4096 + c → c < 4096 → d < 4096 → bit_or x d ≡ q * 4096 + bit_or c d
or_low x q c d p h g =
    let high = bit_or_cong (x / 4096) q (d / 4096) 0 (omega arith) (omega arith) in
    let low = bit_or_cong (x % 4096) c (d % 4096) d (omega arith) (omega arith) in
    omega (arith, Splits-4096 x d, high, low, bit_or-zero q)

or_step :
    (q c d e x : ℕ)
    → x ≡ q * 4096 + c
    → c < 4096
    → d < 4096
    → bit_or c d ≡ e
    → bit_or x d ≡ q * 4096 + e
or_step q c d e x p h g r = or_low x q c d p h g ∙ ap (λ (k : ℕ). q * 4096 + k) r

-- AP bits, and the others.
joined :
    (q perm a b : ℕ)
    → bit_or 0x700 perm ≡ a
    → bit_or a 0x20 ≡ b
    → bit_or b 0x10 ≡ b + 0x10
    → bit_or (b + 0x10) 2 ≡ b + 0x12
    → bit_or (b + 0x12) 1 ≡ b + 0x13
    → perm < 4096
    → a < 4096
    → b < 4000
    → page_entry (q * 4096) perm ≡ q * 4096 + (b + 0x13)
unfolding page_entry
joined q perm a b e1 e2 e3 e4 e5 h1 h2 h3 =
    let s1 = or_step q 0 0x400 0x400 (q * 4096) (omega arith) (omega arith) (omega arith) refl in
    let s2 = or_step q 0x400 0x300 0x700 _ s1 (omega arith) (omega arith) refl in
    let s3 = or_step q 0x700 perm a _ s2 (omega arith) h1 e1 in
    let s4 = or_step q a 0x20 b _ s3 h2 (omega arith) e2 in
    let s5 = or_step q b 0x10 (b + 0x10) _ s4 (omega arith) (omega arith) e3 in
    let s6 = or_step q (b + 0x10) 2 (b + 0x12) _ s5 (omega arith) (omega arith) e4 in
    or_step q (b + 0x12) 1 (b + 0x13) _ s6 (omega arith) (omega arith) e5

-- The parts of the entry for an address of a page, for the kernel alone (AP_RW_1) or for users too
-- (AP_RW_1_0).
pub page_entry-parts :
    (pa perm : ℕ)
    → pa % 4096 ≡ 0
    → perm ≡ 0 ⊎ perm ≡ 64
    → (is_on (page_entry pa perm) ≡ true)
      × (pte_ap (page_entry pa perm) ≡ perm)
      × (pte_addr (page_entry pa perm) ≡ pa)
page_entry-parts pa perm whole (inl p) =
    let e =
      ap (page_entry pa) p
      ∙ ap (λ (x : ℕ). page_entry x 0) {x = pa} {y = pa / 4096 * 4096} (omega arith)
      ∙ joined (pa / 4096) 0 0x700 0x720 refl refl refl refl refl (omega arith) (omega arith)
          (omega arith) in
    (let low : page_entry pa perm % 4 ≡ 3 = omega arith in ground arith, omega arith, omega arith)
page_entry-parts pa perm whole (inr p) =
    let e =
      ap (page_entry pa) p
      ∙ ap (λ (x : ℕ). page_entry x 64) {x = pa} {y = pa / 4096 * 4096} (omega arith)
      ∙ joined (pa / 4096) 64 0x740 0x760 refl refl refl refl refl (omega arith) (omega arith)
          (omega arith) in
    (let low : page_entry pa perm % 4 ≡ 3 = omega arith in ground arith, omega arith, omega arith)
