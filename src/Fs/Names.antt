-- ===== src/Fs/Names.antt =====
-- What the rounds of `skipelem` in src/fs.c make of a path, against the path split at its slashes.
use pinky_os.Prelude.{
  ℕ, zero, suc, ◌≤◌, ◌<◌, ◌≡◌, refl, sym, ap, ◌∙◌, inl, inr, Bool, false, Option, none, some, List,
  [], ◌∷◌, ◌++◌, append-nil, append_assoc, arith, ◌==◌, if◌then◌else◌, Bool-cases, Option-cases,
  length, take,
}
use mathlib.Core.Path.{fun_ext}
use pinky_os.Fs.{Fs}
use pinky_os.Fs.Content.{Devices}
use pinky_os.Fs.Directory.{dirsiz}
use pinky_os.Fs.Path.{
  starts_at_root, take_element, slash, skip_slashes, element, skipelem, namex_round, namex_from,
}

-- The names that f rounds of `skipelem` find.
unfoldable pub names : (f : ℕ) → List ℕ → List (List ℕ)
names zero path = []
names (suc f) path = elim (skipelem path) [ none ↦ [] | some (name, rest) ↦ name ∷ names f rest ]

-- A text on its own, if it is not empty.
abbrev pub unless_empty : List ℕ → List (List ℕ)
unless_empty [] = []
unless_empty (c ∷ cs) = take dirsiz (c ∷ cs) ∷ []

-- The parts of a path between its slashes that are not empty, each cut to DIRSIZ bytes; `part` is
-- the part that has been begun.
unfoldable pub parts : (part path : List ℕ) → List (List ℕ)
parts part [] = unless_empty part
parts part (c ∷ path) =
    if c == slash then unless_empty part ++ parts [] path else parts (part ++ c ∷ []) path

skip_slashes-parts : (path : List ℕ) → parts [] (skip_slashes path) ≡ parts [] path
unfolding skip_slashes parts
skip_slashes-parts [] = refl
skip_slashes-parts (c ∷ path) = elim (Bool-cases (c == slash)) [
  | inl e ↦ rw e (skip_slashes-parts path)
  | inr e ↦ rw e (rw e)
]

-- A part that has been begun ends where `element` stops.
element-parts :
    (part path : List ℕ)
    → parts part path ≡ unless_empty (part ++ (element path).0) ++ parts [] (element path).1
unfolding element parts
element-parts part [] = rw (append-nil part, append-nil (unless_empty part))
element-parts part (c ∷ path) = elim (Bool-cases (c == slash)) [
  | inl e ↦ rw (e, append-nil part) (ap (◌++◌ (unless_empty part)) (rw e))
  | inr e ↦ rw (e, element-parts (part ++ c ∷ []) path, append_assoc part (c ∷ []) (element path).0)
]

length-skip_slashes : (path : List ℕ) → length (skip_slashes path) ≤ length path
unfolding skip_slashes
length-skip_slashes [] = omega arith
length-skip_slashes (c ∷ path) = ground (arith, length-skip_slashes path)

length-element : (path : List ℕ) → length (element path).1 ≤ length path
unfolding element
length-element [] = omega arith
length-element (c ∷ path) = ground (arith, length-element path)

skip_slashes-start : (path : List ℕ) → starts_at_root (skip_slashes path) ≡ false
unfolding skip_slashes
skip_slashes-start [] = refl
skip_slashes-start (c ∷ path) = ground (arith, skip_slashes-start path)

abbrev second : List ℕ × List ℕ → List ℕ
second p = p.1

take_element-shorter :
    (path : List ℕ) (out : List ℕ × List ℕ)
    → starts_at_root path ≡ false
    → take_element path ≡ some out
    → length out.1 < length path
unfolding take_element element
take_element-shorter [] out h e = cc
take_element-shorter (c ∷ path) out h e =
    let same = ap (λ (o : Option (List ℕ × List ℕ)). elim o [ none ↦ 0 | some x ↦ length x.1 ]) e in
    let stop = length-element path in
    let skip = length-skip_slashes (element path).1 in
    let there : length (skip_slashes (element path).1) ≡ length out.1 =
      (ap
          (λ (b : Bool). length (
            skip_slashes
              (second (if b then ([], c ∷ path) else (c ∷ (element path).0, (element path).1)))))
          (sym h)
        ∙ same) in
    omega arith

-- Each round of `skipelem` leaves a shorter path.
pub skipelem-shorter :
    (path : List ℕ) (out : List ℕ × List ℕ) → skipelem path ≡ some out → length out.1 < length path
unfolding skipelem
skipelem-shorter path out e =
    let h = take_element-shorter (skip_slashes path) out (skip_slashes-start path) e in
    let skip = length-skip_slashes path in omega arith

abbrev after : Option (List ℕ × List ℕ) → List (List ℕ)
after none = []
after (some (name, rest)) = name ∷ parts [] rest

take_element-parts :
    (path : List ℕ) → starts_at_root path ≡ false → parts [] path ≡ after (take_element path)
unfolding take_element parts element
take_element-parts [] h = refl
take_element-parts (c ∷ path) h =
    let p = element-parts (c ∷ []) path in rw (h, p, skip_slashes-parts (element path).1)

-- A round of `skipelem` takes the first part.
skipelem-parts : (path : List ℕ) → parts [] path ≡ after (skipelem path)
unfolding skipelem
skipelem-parts path =
    sym (skip_slashes-parts path) ∙ take_element-parts (skip_slashes path) (skip_slashes-start path)

-- With more rounds than the path has bytes, `skipelem` finds the parts of the path between its
-- slashes that are not empty, in order, each cut to DIRSIZ bytes.
pub names_lem : (f : ℕ) (path : List ℕ) → length path < f → names f path ≡ parts [] path
unfolding names
names_lem zero path h = absurd (omega arith)
names_lem (suc f) path h = elim (Option-cases (skipelem path)) [
  | inl e ↦ rw (skipelem-parts path, e, names)
  | inr (out, e) ↦
      let less = skipelem-shorter path out e in
      rw (skipelem-parts path, e, names)
        (ap (λ (ns : List (List ℕ)). out.0 ∷ ns) (names_lem f out.1 (omega arith)))
]

-- One round more than the path has bytes is enough for `namex`: more rounds give the same result.
pub namex_from-enough :
    (devices : Devices) (fs : Fs) (ip : ℕ) (parent : Bool) (f g : ℕ) (path name : List ℕ)
    → length path < f
    → length path < g
    → namex_from devices fs ip parent f path name ≡ namex_from devices fs ip parent g path name
unfolding namex_from
namex_from-enough devices fs ip parent zero g path name h i = absurd (omega arith)
namex_from-enough devices fs ip parent (suc f) zero path name h i = absurd (omega arith)
namex_from-enough devices fs ip parent (suc f) (suc g) path name h i =
    elim (Option-cases (skipelem path)) [
      | inl e ↦ rw (e, namex_from)
      | inr (out, e) ↦
          let less = skipelem-shorter path out e in
          rw (e, namex_from)
            (ap (namex_round devices fs ip parent out) (
              fun_ext λ fs. fun_ext λ next.
                namex_from-enough devices fs next parent f g out.1 out.0 (omega arith)
                  (omega arith)))
    ]
