-- ===== src/Syscall/Arguments.antt =====
-- What the argument checks of src/syscall.c let through, and the descriptors of src/sysfile.c.
use pinky_os.Prelude.{
  ℕ, zero, suc, ◌+◌, ◌-◌, ◌%◌, ◌^◌, ◌≤◌, ◌<◌, ◌≡◌, refl, ap, ◌∙◌, ◌≢◌, inl, inr, true, false, ◌&&◌,
  Option, none, some, List, [], ◌∷◌, arith, ltb, leb, ◌==◌, if◌then◌else◌, eq_of_test, ne_of_test,
  Bool-cases, length, get_or, set,
}
use mathlib.Core.Option
use pinky_os.Outcome.{ok}
use pinky_os.Syscall.{find_nul, fetchstr, argint, extend, argptr, fdalloc}

-- Where the text from an address on ends within n bytes.
abbrev pub EndsAt : (ℕ → ℕ) → (addr n : ℕ) → Option ℕ → Type 0
EndsAt mem addr n (some l) = (l < n) × (mem (addr + l) ≡ 0) × ((k : ℕ) → k < l → mem (addr + k) ≢ 0)
EndsAt mem addr n none = (k : ℕ) → k < n → mem (addr + k) ≢ 0

-- A byte that is not zero, and none after it in n bytes, make n + 1 bytes without a zero.
none_before :
    (mem : ℕ → ℕ) (addr n : ℕ)
    → mem addr ≢ 0
    → ((k : ℕ) → k < n → mem (addr + 1 + k) ≢ 0)
    → (k : ℕ) → k < suc n
    → mem (addr + k) ≢ 0
none_before mem addr n ne h zero lt e =
    let same : addr ≡ addr + 0 = omega arith in ne (ap mem same ∙ e)
none_before mem addr n ne h (suc k) lt e =
    let same : addr + 1 + k ≡ addr + suc k = omega arith in h k (omega arith) (ap mem same ∙ e)

EndsAt-later :
    (mem : ℕ → ℕ) (addr n : ℕ) (found : Option ℕ)
    → mem addr ≢ 0
    → EndsAt mem (addr + 1) n found
    → EndsAt mem addr (suc n) (Option.map suc found)
EndsAt-later mem addr n none ne h = none_before mem addr n ne h
EndsAt-later mem addr n (some l) ne h =
    (let same : addr + suc l ≡ addr + 1 + l = omega arith in
      let inside = h.0 in (omega arith, ap mem same ∙ h.1, none_before mem addr l ne h.2))

find_nul-EndsAt : (mem : ℕ → ℕ) (addr n : ℕ) → EndsAt mem addr n (find_nul mem addr n)
unfolding find_nul
find_nul-EndsAt mem addr zero = λ k lt e. omega arith
find_nul-EndsAt mem addr (suc n) = elim (Bool-cases (mem addr == 0)) [
  | inl e ↦
      rw (e, EndsAt)
        (
          omega arith,
          (let same : addr + 0 ≡ addr = omega arith in ap mem same ∙ eq_of_test (mem addr) 0 e),
          λ k lt. absurd (omega arith),
        )
  | inr e ↦
      rw (e, EndsAt)
        (EndsAt-later mem addr n (find_nul mem (addr + 1) n) (ne_of_test _ _ e)
          (find_nul-EndsAt mem (addr + 1) n))
]

-- `argptr` of one of the four arguments, for a size that is not negative, in a process of at most
-- 2^63 bytes: the pointer is accepted exactly when the block lies inside the process.
pub argptr_lem :
    (args : List ℕ) (sz n size : ℕ)
    → n < 4
    → size < 2 ^ 31
    → sz ≤ 2 ^ 63
    → argptr args sz n size
      ≡ ok (
          if ltb (get_or args n 0) sz && leb (get_or args n 0 + size) sz
          then some (get_or args n 0)
          else none)
unfolding argptr argint
argptr_lem args sz n size hn hs hz =
    let few : ltb 3 n ≡ false = ground arith in
    let p = get_or args n 0 in
    elim (Bool-cases (leb sz p)) [
      | inl e ↦ let e' : ltb p sz ≡ false = ground arith in rw (few, e, e')
      | inr e ↦
          let e' : ltb p sz ≡ true = ground arith in
          let inside : p < sz = ground arith in
          let w : (p + extend size) % 2 ^ 64 ≡ p + size =
            (let x : extend size ≡ size = ground arith in rw x (omega arith)) in
          rw (few, e, e', w) (ground arith)
    ]

-- `fetchstr` returns the length up to the first zero when that zero is inside the process, and fails
-- only when no byte from the address to the end of the process is zero.
pub fetchstr_lem : (mem : ℕ → ℕ) (sz addr : ℕ) → EndsAt mem addr (sz - addr) (fetchstr mem sz addr)
unfolding fetchstr
fetchstr_lem mem sz addr = elim (Bool-cases (leb sz addr)) [
  | inl e ↦ rw (e, EndsAt) (λ k lt. absurd (ground arith))
  | inr e ↦ rw e (find_nul-EndsAt mem addr (sz - addr))
]

-- What `fdalloc` does to a table of descriptors: it takes the first free one, and fails only when
-- none is free.
abbrev pub Allocates : List (Option ℕ) → ℕ → Option (ℕ × List (Option ℕ)) → Type 0
Allocates fs file none = (j : ℕ) → j < length fs → get_or fs j none ≢ none
Allocates fs file (some (fd, gs)) =
    (fd < length fs)
    × (get_or fs fd none ≡ none)
    × (gs ≡ set fs fd (some file))
    × ((j : ℕ) → j < fd → get_or fs j none ≢ none)

taken_before :
    (g : ℕ) (fs : List (Option ℕ)) (n : ℕ)
    → ((j : ℕ) → j < n → get_or fs j none ≢ none)
    → (j : ℕ) → j < suc n
    → get_or (some g ∷ fs) j none ≢ none
taken_before g fs n h zero lt e = cc
taken_before g fs n h (suc j) lt e = h j (omega arith) e

Allocates-later :
    (g file : ℕ) (fs : List (Option ℕ)) (out : Option (ℕ × List (Option ℕ)))
    → Allocates fs file out
    → Allocates (some g ∷ fs) file (Option.map (λ (fd, gs). (suc fd, some g ∷ gs)) out)
Allocates-later g file fs none h = taken_before g fs (length fs) h
Allocates-later g file fs (some (fd, gs)) h =
    (let lt = h.0 in (omega arith, h.1, ap (◌∷◌ (some g)) h.2, taken_before g fs fd h.3))

-- `fdalloc` puts the file in the first free descriptor and changes no other, and fails only when no
-- descriptor is free.
pub fdalloc_lem : (fs : List (Option ℕ)) (file : ℕ) → Allocates fs file (fdalloc fs file)
unfolding fdalloc
fdalloc_lem [] file = λ j lt. absurd (omega arith)
fdalloc_lem (none ∷ fs) file = (omega arith, refl, refl, λ j lt. absurd (omega arith))
fdalloc_lem (some g ∷ fs) file = Allocates-later g file fs (fdalloc fs file) (fdalloc_lem fs file)
