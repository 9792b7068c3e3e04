-- ===== src/Strings/Copy.antt =====
-- `strncpy` and `safestrcpy` of src/lib/string.c.
use pinky_os.Prelude.{
  ℕ, zero, suc, ◌-◌, ◌≤◌, ◌<◌, ◌≡◌, refl, sym, ◌∙◌, ◌≢◌, List, [], ◌∷◌, arith, length, take,
  replicate, length-replicate,
}
use pinky_os.Int.{pos}
use pinky_os.Strings.{tail, strncmp, strncpy, safestrcpy_loop, safestrcpy}
use pinky_os.Strings.Compare.{text, prefix, take-text, strncmp_iff}

text-replicate : (n : ℕ) → text (replicate n 0) ≡ []
text-replicate zero = refl
text-replicate (suc n) = refl

text-strncpy : (n : ℕ) (t : List ℕ) → text (strncpy t n) ≡ prefix t n
unfolding strncpy
text-strncpy zero t = refl
text-strncpy (suc n) t = ground (arith, text-strncpy n (tail t), text-replicate n)

length-strncpy : (n : ℕ) (t : List ℕ) → length (strncpy t n) ≡ n
unfolding strncpy
length-strncpy zero t = refl
length-strncpy (suc n) t = ground (arith, length-strncpy n (tail t), length-replicate {A = ℕ} n 0)

take-take : (n : ℕ) (xs : List ℕ) → take n (take n xs) ≡ take n xs
take-take zero xs = refl
take-take (suc n) [] = refl
take-take (suc n) (x ∷ xs) = rw (take-take n xs)

-- `strncpy` writes n bytes, which hold the first n bytes of the text; `strncmp` over n bytes finds
-- the copy equal to the original.
pub strncmp-strncpy :
    (t : List ℕ) (n : ℕ)
    → (length (strncpy t n) ≡ n)
      × (text (strncpy t n) ≡ take n (text t))
      × (strncmp t (strncpy t n) n ≡ pos 0)
strncmp-strncpy t n =
    let same = text-strncpy n t ∙ sym (take-text n t) in
    (
      length-strncpy n t,
      same,
      (strncmp_iff t (strncpy t n) n).1 (rw same (sym (take-take n (text t)))),
    )

safestrcpy_loop-text : (n : ℕ) (t : List ℕ) → text (safestrcpy_loop t n) ≡ prefix t n
unfolding safestrcpy_loop
safestrcpy_loop-text zero t = refl
safestrcpy_loop-text (suc n) t = ground (arith, safestrcpy_loop-text n (tail t))

safestrcpy_loop-room :
    (n : ℕ) (t : List ℕ)
    → (length (safestrcpy_loop t n) ≤ suc n)
      × (length (text (safestrcpy_loop t n)) < length (safestrcpy_loop t n))
unfolding safestrcpy_loop
safestrcpy_loop-room zero t = omega arith
safestrcpy_loop-room (suc n) t = ground (arith, safestrcpy_loop-room n (tail t))

-- With room for at least one byte, `safestrcpy` stays inside its n bytes, terminates what it
-- writes, and keeps the first n - 1 bytes of the text.
pub safestrcpy_lem :
    (t : List ℕ) (n : ℕ)
    → n ≢ 0
    → (length (safestrcpy t n) ≤ n)
      × (length (text (safestrcpy t n)) < length (safestrcpy t n))
      × (text (safestrcpy t n) ≡ take (n - 1) (text t))
unfolding safestrcpy
safestrcpy_lem t zero h = absurd (h refl)
safestrcpy_lem t (suc n) h =
    let same : suc n - 1 ≡ n = omega arith in
    (
      (safestrcpy_loop-room n t).0,
      (safestrcpy_loop-room n t).1,
      rw same (safestrcpy_loop-text n t ∙ sym (take-text n t)),
    )
