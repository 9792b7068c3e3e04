-- ===== src/File/Counts.antt =====
-- The counts of src/file.c against the descriptors that hold a file, a list of slots.
use pinky_os.Prelude.{
  ℕ, zero, suc, ◌+◌, ◌-◌, ◌≤◌, ◌<◌, ◌≡◌, ap, inl, inr, true, false, Option, none, some, List, [],
  ◌∷◌, arith, ltb, ◌==◌, if◌then◌else◌, Bool-cases, Option-cases,
}
use pinky_os.Outcome.{ok}
use pinky_os.File.{
  fd_none, nfile, Table, put, first_free, filealloc, filedup, fileclose, nothing, under,
}

-- How many descriptors hold a slot.
abbrev pub holders : ℕ → List ℕ → ℕ
holders i [] = 0
holders i (j ∷ js) = if j == i then suc (holders i js) else holders i js

-- The descriptors without one that holds the slot.
abbrev pub drop_one : ℕ → List ℕ → List ℕ
drop_one i [] = []
drop_one i (j ∷ js) = if j == i then js else j ∷ drop_one i js

-- Every slot's count is the number of its holders.
abbrev pub IsCounted : Table → List ℕ → Type 0
IsCounted t fds = (i : ℕ) → i < nfile → (t i).ref ≡ holders i fds

first_free-some :
    (t : Table) (i n j : ℕ) → first_free t i n ≡ some j → ((t j).ref ≡ 0) × (j < i + n)
unfolding first_free
first_free-some t i zero j e = cc
first_free-some t i (suc n) j e = ground (arith, first_free-some t (i + 1) n j)

first_free-none :
    (t : Table) (i n j : ℕ) → first_free t i n ≡ none → i ≤ j → j < i + n → 0 < (t j).ref
unfolding first_free
first_free-none t i zero j e le lt = absurd (omega arith)
first_free-none t i (suc n) j e le lt =
    ground (arith, first_free-none t (i + 1) n j, ap (λ (k : ℕ). (t k).ref) {x = i} {y = j})

holders-drop_one :
    (i j : ℕ) (fds : List ℕ)
    → 0 < holders i fds
    → holders j (drop_one i fds) ≡ (if i == j then holders j fds - 1 else holders j fds)
holders-drop_one i j [] h = absurd (omega arith)
holders-drop_one i j (k ∷ ks) h = ground (arith, holders-drop_one i j ks)

abbrev pub Allocates : Table → List ℕ → Option (ℕ × Table) → Type 0
Allocates t fds none = (i : ℕ) → i < nfile → 0 < holders i fds
Allocates t fds (some (i, t')) = (holders i fds ≡ 0) × (i < nfile) × IsCounted t' (i ∷ fds)

-- Where the counts are those of the holders, `filealloc` gives out a slot that no descriptor holds
-- and counts its one holder; it fails only when every slot is held.
pub filealloc_lem : (t : Table) (fds : List ℕ) → IsCounted t fds → Allocates t fds (filealloc t)
unfolding filealloc
filealloc_lem t fds c = elim (Option-cases (first_free t 0 nfile)) [
  | inl e ↦ rw (e, Allocates) (λ i h. ground (arith, first_free-none t 0 nfile i e, c i))
  | inr (i, e) ↦
      let f = first_free-some t 0 nfile i e in
      let mine = c i (omega arith) in
      rw (e, Allocates)
        (
          omega arith,
          omega arith,
          λ j h. ground (arith, c j h, ap (λ (k : ℕ). holders k fds) {x = j} {y = i}),
        )
]

-- Where the counts are those of the holders, `filedup` of a held slot does not panic and counts one
-- holder more.
pub filedup_lem :
    (t : Table) (fds : List ℕ) (i : ℕ)
    → IsCounted t fds
    → i < nfile
    → 0 < holders i fds
    → (t' : Table) × (filedup t i ≡ ok t') × IsCounted t' (i ∷ fds)
unfolding filedup
filedup_lem t fds i c range held =
    let mine = c i range in
    (
      put t i (record (t i) { ref = (t i).ref + 1 }),
      ground arith,
      λ j h. ground (arith, c j h, ap (λ (k : ℕ). holders k fds) {x = j} {y = i}),
    )

-- Where the counts are those of the holders, `fileclose` of a held slot does not panic and counts
-- one holder less. What is under the file is closed exactly when its last holder goes.
pub fileclose_lem :
    (t : Table) (fds : List ℕ) (i : ℕ)
    → IsCounted t fds
    → i < nfile
    → 0 < holders i fds
    → (t' : Table) × (fileclose t i ≡ ok (if holders i fds == 1 then under (t i) else nothing, t'))
      × IsCounted t' (drop_one i fds)
unfolding fileclose
fileclose_lem t fds i c range held =
    let mine = c i range in
    let some_holder : ltb (t i).ref 1 ≡ false = ground arith in
    elim (Bool-cases (holders i fds == 1)) [
      | inl last_one ↦ (
        put t i (record (t i) { ref = 0; kind = fd_none }),
        (let none_left : ltb 0 ((t i).ref - 1) ≡ false = ground arith in
            rw (some_holder, none_left, last_one)),
        λ j h. ground (
          arith,
          c j h,
          holders-drop_one i j fds held,
          ap (λ (k : ℕ). holders k fds) {x = j} {y = i},
        ),
      )
      | inr shared ↦ (
        put t i (record (t i) { ref = (t i).ref - 1 }),
        (let some_left : ltb 0 ((t i).ref - 1) ≡ true = ground arith in
            rw (some_holder, some_left, shared)),
        λ j h. ground (
          arith,
          c j h,
          holders-drop_one i j fds held,
          ap (λ (k : ℕ). holders k fds) {x = j} {y = i},
        ),
      )
    ]
