-- ===== src/Int.antt =====
-- C's `int` results, as integers.
use pinky_os.Prelude.{ℕ, ◌-◌, ◌≡◌, leb, if◌then◌else◌, arith}

-- `negsuc n` is -(n + 1).
pub data ℤ : Type 0 where
  pos : ℕ → ℤ
  negsuc : ℕ → ℤ

-- a - b, as an integer.
abbrev pub sub_ℕ : ℕ → ℕ → ℤ
sub_ℕ a b = if leb b a then pos (a - b) else negsuc (b - a - 1)

pub eq_of_sub_zero : (a b : ℕ) → sub_ℕ a b ≡ pos 0 → a ≡ b
eq_of_sub_zero a b h = ground arith

pub sub_self : (a : ℕ) → sub_ℕ a a ≡ pos 0
sub_self a = ground arith
