-- ===== src/Usr/Grep.antt =====
-- The matcher of src/usr/grep.c. A pattern and a text are lists of the characters before the NUL.
pub mod Meaning
pub mod Match
pub mod Lines
mod Tests
use pinky_os.Prelude.{
  ℕ, zero, suc, ◌+◌, ◌-◌, ◌*◌, ◌/◌, ◌%◌, ◌^◌, ◌≤◌, ◌<◌, min, ◌≡◌, refl, sym, ap, ◌∙◌, ◌≢◌, ◌↔◌, ◌⊎◌,
  inl, inr, Bool, true, false, not, ◌&&◌, ◌||◌, Option, none, some, List, [], ◌∷◌, ◌++◌, append-nil,
  append_assoc, arith, ltb, leb, ◌==◌, if◌then◌else◌, eq_of_test, ne_of_test, test_of_ne, eq_self,
  Bool-cases, Option-cases, length, get_or, set, take, replicate, length-append, length-set,
  length-replicate, get_or-set_self, get_or-set_ne, get_or-set,
}
use mathlib.Core.Path.{subst}

-- The loop of `matchstar`, with `matchhere` of the pattern behind the star.
unfoldable pub matchstar : (here : List ℕ → Bool) → (c : ℕ) → (text : List ℕ) → Bool
matchstar here c [] = here []
matchstar here c (t ∷ text) =
    let rest = matchstar here c text in
    if here (t ∷ text) then true else if t == c || c == b'.' then rest else false

-- `*text != '\0' && (re[0] == '.' || re[0] == *text)`, and then the rest of the pattern on the rest of the
-- text.
abbrev pub match_one : (r : ℕ) → (next : List ℕ → Bool) → (text : List ℕ) → Bool
match_one r next [] = false
match_one r next (t ∷ text) = if r == b'.' || r == t then next text else false

abbrev pub is_end : List ℕ → Bool
is_end [] = true
is_end (t ∷ text) = false

-- `matchhere`; with no pattern left it returns 1.
unfoldable pub matchhere : (re text : List ℕ) → Bool
unfolding matchstar
matchhere [] text = true
matchhere (r ∷ []) text = if r == b'$' then is_end text else match_one r (λ t. true) text
matchhere (r ∷ (q ∷ re)) text =
    let starred = (λ (t : List ℕ). matchhere re t) in
    let next = (λ (t : List ℕ). matchhere (q ∷ re) t) in
    if q == b'*' then matchstar starred r text else match_one r next text

-- The loop of `match`.
unfoldable pub search_text : (here : List ℕ → Bool) → (text : List ℕ) → Bool
search_text here [] = here []
search_text here (t ∷ text) =
    let rest = search_text here text in if here (t ∷ text) then true else rest

unfoldable pub match : (re text : List ℕ) → Bool
unfolding matchhere search_text
match [] text = search_text (matchhere []) text
match (r ∷ re) text = if r == b'^' then matchhere re text else search_text (matchhere (r ∷ re)) text
