-- ===== src/Fs/Bitmap.antt =====
-- The free bitmap of src/fs.c: balloc's and bfree's bits.
use pinky_os.Prelude.{
  passes, passes-lt, ℕ, zero, suc, ◌+◌, ◌-◌, ◌*◌, ◌/◌, ◌%◌, ◌^◌, ◌≤◌, ◌<◌, ◌≡◌, refl, sym, ap, ◌∙◌,
  inl, inr, Bool, true, false, not, ◌&&◌, ◌||◌, Option, none, some, arith, ltb, ◌==◌, if◌then◌else◌,
  Bool-cases, length, get_or, set, get_or-set,
}
use mathlib.Core.Path.{subst}
use pinky_os.Ide.{Block}
use pinky_os.Fs.{bit_at, set_bit, clear_bit, clear_from}

abbrev bit : (v i : ℕ) → Bool
bit v i = not (v / 2 ^ i % 2 == 0)

abbrev with_bit : (v i : ℕ) → ℕ
with_bit v i = if bit v i then v else v + 2 ^ i

abbrev without_bit : (v i : ℕ) → ℕ
without_bit v i = if bit v i then v - 2 ^ i else v

abbrev same : Bool → Bool → Bool
same true b = b
same false b = not b

same_eq : (a b : Bool) → same a b ≡ true → a ≡ b
same_eq a b h = ground arith

abbrev byte_test : (v i j : ℕ) → Bool
byte_test v i j =
    ltb (with_bit v i) 256
    && (same (bit (with_bit v i) j) (j == i || bit v j)
        && same (bit (without_bit v i) j) (not (j == i) && bit v j))

-- All bytes, and two of their bits.
byte_table : passes (λ n. byte_test (n / 64) (n / 8 % 8) (n % 8)) 16384 ≡ true
unfolding passes
byte_table = refl

both : (a b : Bool) → (a && b) ≡ true → (a ≡ true) × (b ≡ true)
both a b h = (ground arith, ground arith)

lt_of_test : (a b : ℕ) → ltb a b ≡ true → a < b
lt_of_test a b h = ground arith

byte_lem :
    (v i j : ℕ)
    → v < 256
    → i < 8
    → j < 8
    → (with_bit v i < 256)
      × (bit (with_bit v i) j ≡ (j == i || bit v j))
      × (bit (without_bit v i) j ≡ (not (j == i) && bit v j))
byte_lem v i j hv hi hj =
    let n = v * 64 + i * 8 + j in
    let p =
      passes-lt (λ n. byte_test (n / 64) (n / 8 % 8) (n % 8)) 16384 n (omega arith) byte_table in
    let ev : v ≡ n / 64 = omega arith in
    let ei : i ≡ n / 8 % 8 = omega arith in
    let ej : j ≡ n % 8 = omega arith in
    let q : byte_test v i j ≡ true =
      (ap (λ (x : ℕ). byte_test x i j) ev
        ∙ ap (λ (x : ℕ). byte_test (n / 64) x j) ei
        ∙ ap (λ (x : ℕ). byte_test (n / 64) (n / 8 % 8) x) ej
        ∙ p) in
    let (small, rest) = both (ltb (with_bit v i) 256) _ q in
    let (on, off) = both (same (bit (with_bit v i) j) (j == i || bit v j)) _ rest in
    (lt_of_test (with_bit v i) 256 small, same_eq _ _ on, same_eq _ _ off)

-- A bit of a block, by its byte.
bit_at-set :
    (b : Block) (bi j v : ℕ)
    → bi / 8 < length b
    → bit_at (set b (bi / 8) v) j ≡ (if j / 8 == bi / 8 then bit v (j % 8) else bit_at b j)
unfolding bit_at
bit_at-set b bi j v h = rw (get_or-set b (bi / 8) (j / 8) v h) (ground arith)

bit_at-byte : (b : Block) (j : ℕ) → bit_at b j ≡ bit (get_or b (j / 8) 0) (j % 8)
unfolding bit_at
bit_at-byte b j = refl

set_bit-byte :
    (b : Block) (bi : ℕ)
    → set_bit b bi
      ≡ (if bit_at b bi then b else set b (bi / 8) (get_or b (bi / 8) 0 + 2 ^ (bi % 8)))
unfolding set_bit
set_bit-byte b bi = refl

clear_bit-byte :
    (b : Block) (bi : ℕ)
    → clear_bit b bi
      ≡ (if bit_at b bi then set b (bi / 8) (get_or b (bi / 8) 0 - 2 ^ (bi % 8)) else b)
unfolding clear_bit
clear_bit-byte b bi = refl

-- A bit is that of its byte, where it is in the byte.
byte_or :
    (i j : ℕ) (new old w : Bool)
    → new ≡ (j % 8 == i % 8 || w)
    → (j / 8 ≡ i / 8 → old ≡ w)
    → (if j / 8 == i / 8 then new else old) ≡ (j == i || old)
byte_or i j new old w e n = ground arith

byte_and :
    (i j : ℕ) (new old w : Bool)
    → new ≡ (not (j % 8 == i % 8) && w)
    → (j / 8 ≡ i / 8 → old ≡ w)
    → (if j / 8 == i / 8 then new else old) ≡ (not (j == i) && old)
byte_and i j new old w e n = ground arith

bit_or_self :
    (i j : ℕ) (there here : Bool) → (j ≡ i → there ≡ here) → here ≡ true → there ≡ (j == i || there)
bit_or_self i j there here e h = ground arith

bit_and_self :
    (i j : ℕ) (there here : Bool)
    → (j ≡ i → there ≡ here)
    → here ≡ false
    → there ≡ (not (j == i) && there)
bit_and_self i j there here e h = ground arith

-- Of the bits of one byte.
module _ (b : Block) (bi j : ℕ) (h : bi / 8 < length b) (byte : get_or b (bi / 8) 0 < 256) where
  abbrev v : ℕ
  v = get_or b (bi / 8) 0

  near : j / 8 ≡ bi / 8 → bit_at b j ≡ bit v (j % 8)
  near e = bit_at-byte b j ∙ ap (λ (k : ℕ). bit (get_or b k 0) (j % 8)) e

  -- `set_bit` changes its own bit, and no other.
  pub bit_at-set_bit : bit_at (set_bit b bi) j ≡ (j == bi || bit_at b j)
  bit_at-set_bit =
      let l = (byte_lem v (bi % 8) (j % 8) byte (omega arith) (omega arith)).1 in
      let here = bit_at-byte b bi in
      let on = bit_at-set b bi j (v + 2 ^ (bi % 8)) h in
      let at = ap (bit_at b) {x = j} {y = bi} in
      elim (Bool-cases (bit v (bi % 8))) [
        | inl t ↦
            rw (set_bit-byte b bi, here ∙ t)
              (bit_or_self bi j (bit_at b j) (bit_at b bi) at (here ∙ t))
        | inr f ↦
            rw (set_bit-byte b bi, here ∙ f, on)
              (byte_or bi j _ (bit_at b j) (bit v (j % 8))
                (ap (λ (c : Bool). bit (if c then v else v + 2 ^ (bi % 8)) (j % 8)) (sym f) ∙ l)
                near)
      ]

  -- `clear_bit` changes its own bit, and no other.
  pub bit_at-clear_bit : bit_at (clear_bit b bi) j ≡ (not (j == bi) && bit_at b j)
  bit_at-clear_bit =
      let l = (byte_lem v (bi % 8) (j % 8) byte (omega arith) (omega arith)).2 in
      let here = bit_at-byte b bi in
      let off = bit_at-set b bi j (v - 2 ^ (bi % 8)) h in
      let at = ap (bit_at b) {x = j} {y = bi} in
      elim (Bool-cases (bit v (bi % 8))) [
        | inl t ↦
            rw (clear_bit-byte b bi, here ∙ t, off)
              (byte_and bi j _ (bit_at b j) (bit v (j % 8))
                (ap (λ (c : Bool). bit (if c then v - 2 ^ (bi % 8) else v) (j % 8)) (sym t) ∙ l)
                near)
        | inr f ↦
            rw (clear_bit-byte b bi, here ∙ f)
              (bit_and_self bi j (bit_at b j) (bit_at b bi) at (here ∙ f))
      ]

-- What `clear_from` finds among n bits from i on.
abbrev pub Clear : Block → (i n : ℕ) → Option ℕ → Type 0
Clear b i n none = (j : ℕ) → i ≤ j → j < i + n → bit_at b j ≡ true
Clear b i n (some k) =
    (i ≤ k) × (k < i + n) × (bit_at b k ≡ false) × ((j : ℕ) → i ≤ j → j < k → bit_at b j ≡ true)

Clear-next :
    (b : Block) (i n : ℕ) (o : Option ℕ)
    → bit_at b i ≡ true
    → Clear b (i + 1) n o
    → Clear b i (suc n) o
Clear-next b i n none t h = λ j le lt. ground (arith, h j, ap (bit_at b) {x = j} {y = i})
Clear-next b i n (some k) t h =
    (let low = h.0 in
      let high = h.1 in
      (
        omega arith,
        omega arith,
        h.2,
        λ j le lt. ground (arith, h.3 j, ap (bit_at b) {x = j} {y = i}),
      ))

-- The search of `balloc` in a block of the bitmap finds the first clear bit of those it looks at, and
-- none only when all are set.
pub clear_from-Clear : (b : Block) (i n : ℕ) → Clear b i n (clear_from b i n)
unfolding clear_from
clear_from-Clear b i zero = λ j le lt. absurd (omega arith)
clear_from-Clear b i (suc n) = elim (Bool-cases (bit_at b i)) [
  | inl t ↦
      rw (t, Clear) (Clear-next b i n (clear_from b (i + 1) n) t (clear_from-Clear b (i + 1) n))
  | inr f ↦ rw (f, Clear) (omega arith, omega arith, f, λ j le lt. absurd (omega arith))
]

-- A bit that `balloc` finds clear in a block of bytes is set by it, and cleared again by `bfree`; no
-- other bit changes by either.
pub balloc-bfree_bits :
    (b : Block) (i n k : ℕ)
    → clear_from b i n ≡ some k
    → k / 8 < length b
    → get_or b (k / 8) 0 < 256
    → (bit_at b k ≡ false)
      × ((j : ℕ) → bit_at (set_bit b k) j ≡ (j == k || bit_at b j))
      × ((j : ℕ) → bit_at (clear_bit b k) j ≡ (not (j == k) && bit_at b j))
balloc-bfree_bits b i n k e h byte =
    let c : Clear b i n (some k) = subst (Clear b i n) e (clear_from-Clear b i n) in
    (c.2, λ j. bit_at-set_bit b k j h byte, λ j. bit_at-clear_bit b k j h byte)
