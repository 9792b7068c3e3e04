-- ===== src/Usr/Grep/Meaning.antt =====
-- What a pattern of src/usr/grep.c means.
use pinky_os.Prelude.{ℕ, ◌≡◌, ◌⊎◌, Bool, true, false, List, [], ◌∷◌, ◌++◌, ◌==◌, if◌then◌else◌}

-- A part of a pattern: one character, or any number of them.
pub data Item : Type 0 where
  lit : ℕ → Item
  star : ℕ → Item

-- A dot stands for every character.
abbrev pub Accepts : (c t : ℕ) → Type 0
Accepts c t = (c ≡ b'.') ⊎ (c ≡ t)

abbrev pub AllAccepted : (c : ℕ) → List ℕ → Type 0
AllAccepted c [] = Unit {0}
AllAccepted c (t ∷ text) = Accepts c t × AllAccepted c text

-- A text begins with what the items describe, one after the other, and ends there when `whole` is true.
abbrev pub Begins : List Item → (whole : Bool) → List ℕ → Type 0
Begins [] false text = Unit {0}
Begins [] true text = text ≡ []
Begins (lit c ∷ items) whole text =
    (t : ℕ) × ((rest : List ℕ) × ((text ≡ t ∷ rest) × (Accepts c t × Begins items whole rest)))
Begins (star c ∷ items) whole text =
    (run : List ℕ) × ((rest : List ℕ) × ((text ≡ run ++ rest)
        × (AllAccepted c run × Begins items whole rest)))

-- The items of a pattern, and whether it ends with `$`.
abbrev pub items : List ℕ → List Item × Bool
items [] = ([], false)
items (r ∷ []) = if r == b'$' then ([], true) else (lit r ∷ [], false)
items (r ∷ (q ∷ re)) =
    let starred = items re in
    let next = items (q ∷ re) in
    if q == b'*' then (star r ∷ starred.0, starred.1) else (lit r ∷ next.0, next.1)

-- The pattern is found in the text: at its start after `^`, anywhere else.
abbrev pub FoundIn : (re text : List ℕ) → Type 0
FoundIn re text =
    (before : List ℕ) × ((rest : List ℕ) × ((text ≡ before ++ rest)
        × Begins (items re).0 (items re).1 rest))

abbrev pub Means : (re text : List ℕ) → Type 0
Means [] text = FoundIn [] text
Means (r ∷ re) text =
    if r == b'^' then Begins (items re).0 (items re).1 text else FoundIn (r ∷ re) text
