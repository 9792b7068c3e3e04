-- ===== src/Usr/Grep/Match.antt =====
-- The matcher of src/usr/grep.c against what a pattern means.
use pinky_os.Prelude.{
  ℕ, ◌≡◌, refl, sym, ap, ◌∙◌, ◌↔◌, ◌⊎◌, inl, inr, Bool, true, false, ◌||◌, List, [], ◌∷◌, ◌++◌,
  arith, ◌==◌, if◌then◌else◌, Bool-cases,
}
use mathlib.Core.Path.{subst}
use pinky_os.Usr.Grep.{matchstar, match_one, is_end, matchhere, search_text, match}
use pinky_os.Usr.Grep.Meaning.{Accepts, AllAccepted, Begins, items, FoundIn, Means}

abbrev first : ℕ → List ℕ → ℕ
first d [] = d
first d (x ∷ xs) = x

abbrev others : List ℕ → List ℕ
others [] = []
others (x ∷ xs) = xs

same_first : (x y : ℕ) (xs ys : List ℕ) → x ∷ xs ≡ y ∷ ys → x ≡ y
same_first x y xs ys p = ap (first 0) p

same_others : (x y : ℕ) (xs ys : List ℕ) → x ∷ xs ≡ y ∷ ys → xs ≡ ys
same_others x y xs ys p = ap others p

Accepts-test : (c t : ℕ) → Accepts c t → (t == c || c == b'.') ≡ true
Accepts-test c t a = ground arith

test-Accepts : (c t : ℕ) → (t == c || c == b'.') ≡ true → Accepts c t
test-Accepts c t h = ground arith

picked :
    (a b r : Bool)
    → (if a then true else if b then r else false) ≡ true
    → (a ≡ true) ⊎ ((b ≡ true) × (r ≡ true))
picked true b r h = inl refl
picked false true r h = inr (refl, h)
picked false false r h = ground arith

both : (a r : Bool) → (if a then r else false) ≡ true → (a ≡ true) × (r ≡ true)
both true r h = (refl, h)
both false r h = ground arith

either : (a r : Bool) → a ≡ false → (if a then true else r) ≡ true → r ≡ true
either true r e h = ground arith
either false r e h = h

-- A run of characters that c accepts, and then a match of the rest.
abbrev Run : (here : List ℕ → Bool) → (c : ℕ) → List ℕ → Type 0
Run here c text =
    (run : List ℕ) × ((rest : List ℕ) × ((text ≡ run ++ rest)
        × (AllAccepted c run × (here rest ≡ true))))

matchstar-Run :
    (here : List ℕ → Bool) (c : ℕ) (text : List ℕ) → matchstar here c text ≡ true → Run here c text
unfolding matchstar
matchstar-Run here c [] h = ([], ([], (refl, (tt, h))))
matchstar-Run here c (t ∷ text) h =
    elim (picked (here (t ∷ text)) (t == c || c == b'.') (matchstar here c text) h) [
      | inl e ↦ ([], (t ∷ text, (refl, (tt, e))))
      | inr (a, more) ↦
          let run = matchstar-Run here c text more in
          (
            t ∷ run.0,
            (
              run.1.0,
              (
                ap (λ (xs : List ℕ). t ∷ xs) run.1.1.0,
                ((test-Accepts c t a, run.1.1.1.0), run.1.1.1.1),
              ),
            ),
          )
    ]

Run-matchstar :
    (here : List ℕ → Bool) (c : ℕ) (text run rest : List ℕ)
    → text ≡ run ++ rest
    → AllAccepted c run
    → here rest ≡ true
    → matchstar here c text ≡ true
unfolding matchstar
Run-matchstar here c [] [] rest p all h = ap here p ∙ h
Run-matchstar here c [] (x ∷ run) rest p all h = absurd (ground (arith, p))
Run-matchstar here c (t ∷ text) [] rest p all h = rw (ap here p ∙ h)
Run-matchstar here c (t ∷ text) (x ∷ run) rest p all h = elim (Bool-cases (here (t ∷ text))) [
  | inl e ↦ rw e
  | inr e ↦
      let more =
        Run-matchstar here c text run rest (same_others t x text (run ++ rest) p) all.1 h in
      let ok =
        Accepts-test c t (subst (Accepts c) (sym (same_first t x text (run ++ rest) p)) all.0) in
      rw (e, ok, more)
]

one-Begins :
    (r : ℕ) (next : List ℕ → Bool) (text : List ℕ)
    → match_one r next text ≡ true
    → (t : ℕ) × ((rest : List ℕ) × ((text ≡ t ∷ rest) × (Accepts r t × (next rest ≡ true))))
one-Begins r next [] h = ground arith
one-Begins r next (t ∷ text) h =
    let ok = both (r == b'.' || r == t) (next text) h in
    (t, (text, (refl, (let a = ok.0 in ground arith, ok.1))))

Begins-one :
    (r : ℕ) (next : List ℕ → Bool) (text : List ℕ) (t : ℕ) (rest : List ℕ)
    → text ≡ t ∷ rest
    → Accepts r t
    → next rest ≡ true
    → match_one r next text ≡ true
Begins-one r next text t rest p a h =
    let ok : (r == b'.' || r == t) ≡ true = ground arith in ap (match_one r next) p ∙ rw (ok, h)

-- matchhere is right about the start of a text.
abbrev Right : (re text : List ℕ) → Type 0
Right re text = (matchhere re text ≡ true) ↔ Begins (items re).0 (items re).1 text

is_end_iff : (text : List ℕ) → (is_end text ≡ true) ↔ (text ≡ [])
is_end_iff [] = (λ h. refl, λ h. refl)
is_end_iff (t ∷ text) = (λ h. ground arith, λ h. ground (arith, h))

last-Right : (r : ℕ) (text : List ℕ) → Right (r ∷ []) text
unfolding matchhere
last-Right r text = elim (Bool-cases (r == b'$')) [
  | inl e ↦ rw e (is_end_iff text)
  | inr e ↦ rw e (
      (
        λ h.
            (let out = one-Begins r (λ t. true) text h in
              (out.0, (out.1.0, (out.1.1.0, (out.1.1.1.0, tt))))),
        λ b. Begins-one r (λ t. true) text b.0 b.1.0 b.1.1.0 b.1.1.1.0 refl,
      ))
]

star-Right :
    (r q : ℕ) (re text : List ℕ)
    → q == b'*' ≡ true
    → ((t : List ℕ) → Right re t)
    → Right (r ∷ (q ∷ re)) text
unfolding matchhere
star-Right r q re text e rest = rw e (
    (
      λ h.
          (let run = matchstar-Run (λ t. matchhere re t) r text h in
            (run.0, (run.1.0, (run.1.1.0, (run.1.1.1.0, (rest run.1.0).0 run.1.1.1.1))))),
      λ b.
          Run-matchstar (λ t. matchhere re t) r text b.0 b.1.0 b.1.1.0 b.1.1.1.0
            ((rest b.1.0).1 b.1.1.1.1),
    ))

next-Right :
    (r q : ℕ) (re text : List ℕ)
    → q == b'*' ≡ false
    → ((t : List ℕ) → Right (q ∷ re) t)
    → Right (r ∷ (q ∷ re)) text
unfolding matchhere
next-Right r q re text e rest = rw e (
    (
      λ h.
          (let out = one-Begins r (λ t. matchhere (q ∷ re) t) text h in
            (out.0, (out.1.0, (out.1.1.0, (out.1.1.1.0, (rest out.1.0).0 out.1.1.1.1))))),
      λ b.
          Begins-one r (λ t. matchhere (q ∷ re) t) text b.0 b.1.0 b.1.1.0 b.1.1.1.0
            ((rest b.1.0).1 b.1.1.1.1),
    ))

pub matchhere_iff :
    (re text : List ℕ) → (matchhere re text ≡ true) ↔ Begins (items re).0 (items re).1 text
unfolding matchhere
matchhere_iff [] text = (λ h. tt, λ b. refl)
matchhere_iff (r ∷ []) text = last-Right r text
matchhere_iff (r ∷ (q ∷ re)) text = elim (Bool-cases (q == b'*')) [
  | inl e ↦ star-Right r q re text e (matchhere_iff re)
  | inr e ↦ next-Right r q re text e (matchhere_iff (q ∷ re))
]

-- A loop over the rests of a text finds one exactly where there is one.
module _ (here : List ℕ → Bool) where
  found_at :
      (text : List ℕ)
      → search_text here text ≡ true
      → (before : List ℕ) × ((rest : List ℕ) × ((text ≡ before ++ rest) × (here rest ≡ true)))
  unfolding search_text
  found_at [] h = ([], ([], (refl, h)))
  found_at (t ∷ text) h = elim (Bool-cases (here (t ∷ text))) [
    | inl e ↦ ([], (t ∷ text, (refl, e)))
    | inr e ↦
        let later = found_at text (either (here (t ∷ text)) (search_text here text) e h) in
        (t ∷ later.0, (later.1.0, (ap (λ (xs : List ℕ). t ∷ xs) later.1.1.0, later.1.1.1)))
  ]

  finds :
      (text before rest : List ℕ)
      → text ≡ before ++ rest
      → here rest ≡ true
      → search_text here text ≡ true
  unfolding search_text
  finds [] [] rest p h = ap here p ∙ h
  finds [] (x ∷ before) rest p h = absurd (ground (arith, p))
  finds (t ∷ text) [] rest p h = rw (ap here p ∙ h)
  finds (t ∷ text) (x ∷ before) rest p h = elim (Bool-cases (here (t ∷ text))) [
    | inl e ↦ rw e
    | inr e ↦ rw (e, finds text before rest (same_others t x text (before ++ rest) p) h)
  ]

FoundIn-iff : (re text : List ℕ) → (search_text (matchhere re) text ≡ true) ↔ FoundIn re text
FoundIn-iff re text = (
  λ h.
      (let f = found_at (matchhere re) text h in
        (f.0, (f.1.0, (f.1.1.0, (matchhere_iff re f.1.0).0 f.1.1.1)))),
  λ f. finds (matchhere re) text f.0 f.1.0 f.1.1.0 ((matchhere_iff re f.1.0).1 f.1.1.1),
)

-- match returns 1 exactly when the pattern means the text: a pattern that starts with `^` has its items at
-- the start of the text, any other somewhere in it, one item after the other, with `*` for any number of
-- characters, a dot for every character, and `$` at the end of the pattern for the end of the text.
pub match_iff : (re text : List ℕ) → (match re text ≡ true) ↔ Means re text
unfolding match
match_iff [] text = FoundIn-iff [] text
match_iff (r ∷ re) text = elim (Bool-cases (r == b'^')) [
  | inl e ↦ rw e (matchhere_iff re text)
  | inr e ↦ rw e (FoundIn-iff (r ∷ re) text)
]
