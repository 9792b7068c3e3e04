-- ===== src/Outcome.antt =====
-- What a kernel routine does: it returns, calls `panic` of src/console.c with a message, or waits
-- (it spins, or sleeps until another process acts).
use Prim.Native.String.{String}

pub data Outcome {ℓ} (A : Type ℓ) : Type ℓ where
  ok : A → Outcome A
  panic : String → Outcome A
  waits : Outcome A

infixl 5 ◌>>=◌
abbrev pub ◌>>=◌ {ℓ κ} : {A : Type ℓ} {B : Type κ} → Outcome A → (A → Outcome B) → Outcome B
ok a >>= f = f a
panic s >>= f = panic s
waits >>= f = waits
