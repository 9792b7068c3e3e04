-- ===== src/Strings.antt =====
-- The byte routines of src/lib/string.c. A C string is the list of the bytes from its pointer on;
-- past the end of the list the bytes are 0, which is its terminator.
pub mod Memory
pub mod Compare
pub mod Copy
pub mod Numbers
mod Tests
use pinky_os.Prelude.{
  ℕ, zero, suc, ◌+◌, ◌-◌, ◌*◌, ◌/◌, ◌%◌, ◌^◌, ◌≤◌, ◌<◌, min, ◌≡◌, refl, sym, ap, ◌∙◌, ◌≢◌, ◌↔◌, ◌⊎◌,
  inl, inr, Bool, true, false, not, ◌&&◌, ◌||◌, Option, none, some, List, [], ◌∷◌, ◌++◌, append-nil,
  append_assoc, arith, ltb, leb, ◌==◌, if◌then◌else◌, eq_of_test, ne_of_test, Bool-cases,
  Option-cases, length, get_or, set, take, replicate, length-append, length-set, length-replicate,
  get_or-set_self, get_or-set_ne,
}
use pinky_os.Int.{ℤ, pos, sub_ℕ}

-- `*s` and `s + 1`
abbrev pub head : List ℕ → ℕ
head [] = 0
head (c ∷ s) = c

abbrev pub tail : List ℕ → List ℕ
tail [] = []
tail (c ∷ s) = s

-- `strncmp`: the sign of the result is what its callers use.
pub strncmp : List ℕ → List ℕ → ℕ → ℤ
strncmp p q zero = pos 0
strncmp p q (suc n) =
    let rest = strncmp (tail p) (tail q) n in
    if not (head p == 0) && head p == head q then rest else sub_ℕ (head p) (head q)

-- `memcmp` of two blocks of n bytes.
pub memcmp : List ℕ → List ℕ → ℕ → ℤ
memcmp p q zero = pos 0
memcmp p q (suc n) =
    let rest = memcmp (tail p) (tail q) n in
    if head p == head q then rest else sub_ℕ (head p) (head q)

-- `strlen`, and `strnlen` below, count up to the terminator.
pub strlen : List ℕ → ℕ
strlen [] = 0
strlen (c ∷ s) = if c == 0 then 0 else suc (strlen s)

pub strnlen : List ℕ → ℕ → ℕ
strnlen s zero = 0
strnlen s (suc n) = let rest = strnlen (tail s) n in if head s == 0 then 0 else suc rest

-- The n bytes that `strncpy` writes: those of t, its terminator, and zeros up to n.
pub strncpy : List ℕ → ℕ → List ℕ
strncpy t zero = []
strncpy t (suc n) =
    let rest = strncpy (tail t) n in head t ∷ (if head t == 0 then replicate n 0 else rest)

-- The loop of `safestrcpy`, entered with n bytes left, and the `*s = 0` behind it.
pub safestrcpy_loop : List ℕ → ℕ → List ℕ
safestrcpy_loop t zero = 0 ∷ []
safestrcpy_loop t (suc n) =
    let rest = safestrcpy_loop (tail t) n in if head t == 0 then head t ∷ 0 ∷ [] else head t ∷ rest

-- The bytes that `safestrcpy` writes.
pub safestrcpy : List ℕ → ℕ → List ℕ
unfolding safestrcpy_loop
safestrcpy t zero = []
safestrcpy t (suc n) = safestrcpy_loop t n
