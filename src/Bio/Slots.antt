-- ===== src/Bio/Slots.antt =====
-- Lists of slots: membership, repetition, and counting the slots that pass a test.
use pinky_os.Prelude.{
  ℕ, suc, ◌+◌, ◌≡◌, refl, Bool, true, false, not, ◌&&◌, ◌||◌, none, some, List, [], ◌∷◌, arith,
  ◌==◌, if◌then◌else◌,
}
use pinky_os.Ide.{Buf}
use pinky_os.Bio.{update, remove, find, last_free, holds, is_free}

abbrev pub has : ℕ → List ℕ → Bool
has i [] = false
has i (j ∷ js) = j == i || has i js

abbrev pub NoDup : List ℕ → Type 0
NoDup [] = Unit {0}
NoDup (i ∷ is) = (has i is ≡ false) × NoDup is

abbrev pub count : (Buf → Bool) → (ℕ → Buf) → List ℕ → ℕ
count test buf [] = 0
count test buf (i ∷ is) = if test (buf i) then suc (count test buf is) else count test buf is

pub has-remove : (i j : ℕ) (is : List ℕ) → has j (remove i is) ≡ (has j is && not (i == j))
has-remove i j [] = refl
has-remove i j (k ∷ ks) = ground (arith, has-remove i j ks)

pub has-front : (i j : ℕ) (is : List ℕ) → has i is ≡ true → has j (i ∷ remove i is) ≡ has j is
has-front i j is h = ground (arith, has-remove i j is)

pub NoDup-remove : (i : ℕ) (is : List ℕ) → NoDup is → NoDup (remove i is)
NoDup-remove i [] d = tt
NoDup-remove i (j ∷ js) d = ground (arith, NoDup-remove i js d.1, has-remove i j js)

pub NoDup-front : (i : ℕ) (is : List ℕ) → NoDup is → NoDup (i ∷ remove i is)
NoDup-front i is d = (ground (arith, has-remove i i is), NoDup-remove i is d)

-- A change at a slot that is not counted over changes no count.
pub count-update_out :
    (test : Buf → Bool) (buf : ℕ → Buf) (i : ℕ) (b : Buf) (is : List ℕ)
    → has i is ≡ false
    → count test (update buf i b) is ≡ count test buf is
count-update_out test buf i b [] h = refl
count-update_out test buf i b (j ∷ js) h = ground (arith, count-update_out test buf i b js)

-- A change at a slot of the list trades its old test for the new one.
pub count-update :
    (test : Buf → Bool) (buf : ℕ → Buf) (i : ℕ) (b : Buf) (is : List ℕ)
    → NoDup is
    → has i is ≡ true
    → count test (update buf i b) is + (if test (buf i) then 1 else 0)
      ≡ count test buf is + (if test b then 1 else 0)
count-update test buf i b [] d h = absurd (ground arith)
count-update test buf i b (j ∷ js) d h =
    ground (arith, count-update test buf i b js d.1, count-update_out test buf i b js)

remove_out : (i : ℕ) (is : List ℕ) → has i is ≡ false → remove i is ≡ is
remove_out i [] h = refl
remove_out i (j ∷ js) h = ground (arith, remove_out i js)

pub count-remove :
    (test : Buf → Bool) (buf : ℕ → Buf) (i : ℕ) (is : List ℕ)
    → NoDup is
    → has i is ≡ true
    → count test buf (i ∷ remove i is) ≡ count test buf is
count-remove test buf i [] d h = absurd (ground arith)
count-remove test buf i (j ∷ js) d h =
    ground (arith, remove_out i js, count-remove test buf i js d.1)

-- `find` misses only what no slot holds, and finds a slot that holds it.
pub find-none :
    (buf : ℕ → Buf) (dev sector : ℕ) (is : List ℕ) (j : ℕ)
    → find buf dev sector is ≡ none
    → has j is ≡ true
    → holds (buf j) dev sector ≡ false
unfolding find
find-none buf dev sector [] j e h = cc
find-none buf dev sector (i ∷ is) j e h = ground (arith, find-none buf dev sector is j)

pub find-some :
    (buf : ℕ → Buf) (dev sector : ℕ) (is : List ℕ) (j : ℕ)
    → find buf dev sector is ≡ some j
    → (has j is ≡ true) × (holds (buf j) dev sector ≡ true)
unfolding find
find-some buf dev sector [] j e = cc
find-some buf dev sector (i ∷ is) j e = ground (arith, find-some buf dev sector is j)

-- `last_free` fails only when no slot is free.
pub last_free-some :
    (buf : ℕ → Buf) (is : List ℕ) (j : ℕ)
    → last_free buf is ≡ some j
    → (has j is ≡ true) × (is_free (buf j) ≡ true)
unfolding last_free
last_free-some buf [] j e = cc
last_free-some buf (i ∷ is) j e = ground (arith, last_free-some buf is j)

pub last_free-none :
    (buf : ℕ → Buf) (is : List ℕ) → last_free buf is ≡ none → count is_free buf is ≡ 0
unfolding last_free
last_free-none buf [] e = refl
last_free-none buf (i ∷ is) e = ground (arith, last_free-none buf is)
