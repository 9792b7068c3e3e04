-- ===== src/Console/Ring.antt =====
-- The ring of src/console.c as two lists: the characters that readers may have, and the line that is
-- being typed.
use pinky_os.Prelude.{
  ℕ, zero, suc, ◌+◌, ◌%◌, ◌^◌, ◌≤◌, ◌<◌, ◌≡◌, refl, sym, ap, ◌∙◌, ◌≢◌, Bool, List, [], ◌∷◌, ◌++◌,
  arith, ◌==◌, if◌then◌else◌, test_of_ne, eq_self,
}
use mathlib.Core.Path.{subst}
use pinky_os.Console.{Input, minus, uint, put_char, step_back}

-- n characters of a ring from place x on.
abbrev pub window : (ℕ → ℕ) → (x n : ℕ) → List ℕ
window buf x zero = []
window buf x (suc n) = buf (x % 512) ∷ window buf (x + 1) n

pub window_cong : (buf : ℕ → ℕ) (x y n : ℕ) → x % 512 ≡ y % 512 → window buf x n ≡ window buf y n
window_cong buf x y zero e = refl
window_cong buf x y (suc n) e = rw (e, window_cong buf (x + 1) (y + 1) n (omega arith))

pub window_snoc :
    (buf : ℕ → ℕ) (x n : ℕ) → window buf x (suc n) ≡ window buf x n ++ buf ((x + n) % 512) ∷ []
window_snoc buf x zero = ap (λ (k : ℕ). buf (k % 512) ∷ []) {x = x} {y = x + 0} (omega arith)
window_snoc buf x (suc n) =
    ap (λ (xs : List ℕ). buf (x % 512) ∷ xs)
      (window_snoc buf (x + 1) n
        ∙ ap (λ (k : ℕ). window buf (x + 1) n ++ buf (k % 512) ∷ []) {x = x + 1 + n} {y = x + suc n}
            (omega arith))

pub window_append :
    (buf : ℕ → ℕ) (x m n : ℕ) → window buf x (m + n) ≡ window buf x m ++ window buf (x + m) n
window_append buf x zero n =
    ap (window buf x) {x = 0 + n} {y = n} (omega arith) ∙ window_cong buf x (x + 0) n (omega arith)
window_append buf x (suc m) n =
    ap (window buf x) {x = suc m + n} {y = suc (m + n)} (omega arith)
    ∙ ap (λ (xs : List ℕ). buf (x % 512) ∷ xs)
        (window_append buf (x + 1) m n
          ∙ ap (λ (k : ℕ). window buf (x + 1) m ++ window buf k n) {x = x + 1 + m} {y = x + suc m}
              (omega arith))

-- A character put behind the window does not change it.
pub window_put :
    (buf : ℕ → ℕ) (x n k v : ℕ)
    → ((j : ℕ) → j < n → (x + j) % 512 ≢ k)
    → window (λ i. if i == k then v else buf i) x n ≡ window buf x n
window_put buf x zero k v far = refl
window_put buf x (suc n) k v far =
    let here : x % 512 ≢ k =
      (λ p. far 0 (omega arith) (ap (λ (i : ℕ). i % 512) {x = x + 0} {y = x} (omega arith) ∙ p)) in
    rw (
      test_of_ne (x % 512) k here,
      window_put buf (x + 1) n k v (λ j h p.
          far (suc j) (omega arith)
            (ap (λ (i : ℕ). i % 512) {x = x + suc j} {y = x + 1 + j} (omega arith) ∙ p)),
    )

-- What readers may have, and what is being typed.
abbrev pub ready : Input → List ℕ
ready i = window i.buf i.r (minus i.w i.r)

abbrev pub typed : Input → List ℕ
typed i = window i.buf i.w (minus i.e i.w)

-- No end of a line.
abbrev pub IsOneLine : List ℕ → Type 0
IsOneLine [] = Unit {0}
IsOneLine (c ∷ cs) = (c ≢ b'\n') × IsOneLine cs

-- The places are in order and at most a ring apart, and the line that is being typed has not ended.
pub record IsInput (i : Input) : Type 0 where
  pub r_word : i.r < 2 ^ 32
  pub w_word : i.w < 2 ^ 32
  pub e_word : i.e < 2 ^ 32
  pub order : minus i.w i.r + minus i.e i.w ≡ minus i.e i.r
  pub room : minus i.e i.r ≤ 512
  pub line : IsOneLine (typed i)

pub IsOneLine-snoc : (cs : List ℕ) (c : ℕ) → IsOneLine cs → c ≢ b'\n' → IsOneLine (cs ++ c ∷ [])
IsOneLine-snoc [] c h ne = (ne, tt)
IsOneLine-snoc (x ∷ cs) c h ne = (h.0, IsOneLine-snoc cs c h.1 ne)

pub IsOneLine-init : (cs : List ℕ) (c : ℕ) → IsOneLine (cs ++ c ∷ []) → IsOneLine cs × (c ≢ b'\n')
IsOneLine-init [] c h = (tt, h.0)
IsOneLine-init (x ∷ cs) c h = ((h.0, (IsOneLine-init cs c h.1).0), (IsOneLine-init cs c h.1).1)

-- All but the last.
abbrev pub init : List ℕ → List ℕ
init [] = []
init (c ∷ []) = []
init (c ∷ (d ∷ cs)) = c ∷ init (d ∷ cs)

pub init-snoc : (cs : List ℕ) (c : ℕ) → init (cs ++ c ∷ []) ≡ cs
init-snoc [] c = refl
init-snoc (x ∷ []) c = refl
init-snoc (x ∷ (y ∷ cs)) c = ap (λ (xs : List ℕ). x ∷ xs) (init-snoc (y ∷ cs) c)

-- A character taken off the line that is being typed.
module _ (i : Input) (v : IsInput i) (ne : i.e ≢ i.w) where
  shorter : minus i.e i.w ≡ suc (minus (minus i.e 1) i.w)
  shorter = let a = v.w_word in let b = v.e_word in omega arith

  typed_back : typed i ≡ typed (step_back i) ++ i.buf (minus i.e 1 % 512) ∷ []
  typed_back =
      let n = minus (minus i.e 1) i.w in
      let at : (i.w + n) % 512 ≡ minus i.e 1 % 512 =
        (let a = v.w_word in let b = v.e_word in omega arith) in
      ap (window i.buf i.w) shorter
      ∙ window_snoc i.buf i.w n
      ∙ ap (λ (k : ℕ). window i.buf i.w n ++ i.buf k ∷ []) at

  pub step_back-IsInput : IsInput (step_back i)
  step_back-IsInput =
      let a = v.w_word in
      let b = v.e_word in
      let d = v.r_word in
      let o = v.order in
      let m = v.room in
      let h = shorter in
      record {
        r_word = v.r_word;
        w_word = v.w_word;
        e_word = omega arith;
        order = omega arith;
        room = omega arith;
        line = (IsOneLine-init (typed (step_back i)) _ (subst IsOneLine typed_back v.line)).0;
      }

  pub typed-step_back : typed (step_back i) ≡ init (typed i)
  typed-step_back = sym (init-snoc (typed (step_back i)) _) ∙ ap init (sym typed_back)

  pub last_typed : i.buf (minus i.e 1 % 512) ≢ b'\n'
  last_typed = (IsOneLine-init (typed (step_back i)) _ (subst IsOneLine typed_back v.line)).1

-- A character added to it.
module _ (i : Input) (c : ℕ) (v : IsInput i) (room : minus i.e i.r < 512) where
  longer : minus (uint (i.e + 1)) i.w ≡ suc (minus i.e i.w)
  longer =
      let a = v.w_word in let b = v.e_word in let d = v.r_word in let o = v.order in omega arith

  pub ready-put_char : ready (put_char i c) ≡ ready i
  ready-put_char = window_put i.buf i.r (minus i.w i.r) (i.e % 512) (c % 2 ^ 8) (λ j h p.
      let a = v.w_word in let b = v.e_word in let d = v.r_word in let o = v.order in omega arith)

  pub typed-put_char : typed (put_char i c) ≡ typed i ++ c % 2 ^ 8 ∷ []
  typed-put_char =
      let n = minus i.e i.w in
      let buf' = (put_char i c).buf in
      let at : (i.w + n) % 512 ≡ i.e % 512 =
        (let a = v.w_word in let b = v.e_word in omega arith) in
      let old : window buf' i.w n ≡ window i.buf i.w n =
        window_put i.buf i.w n (i.e % 512) (c % 2 ^ 8) (λ j h p.
          let a = v.w_word in
          let b = v.e_word in let d = v.r_word in let o = v.order in omega arith) in
      ap (window buf' i.w) longer
      ∙ window_snoc buf' i.w n
      ∙ ap (λ (xs : List ℕ). xs ++ buf' ((i.w + n) % 512) ∷ []) old
      ∙ ap
          (λ (b : Bool).
            window i.buf i.w n ++ (if b then c % 2 ^ 8 else i.buf ((i.w + n) % 512)) ∷ [])
          (ap (λ (k : ℕ). k == i.e % 512) at ∙ eq_self (i.e % 512))

  pub order_put : minus i.w i.r + minus (uint (i.e + 1)) i.w ≡ minus (uint (i.e + 1)) i.r
  order_put =
      let h = longer in
      let a = v.w_word in let b = v.e_word in let d = v.r_word in let o = v.order in omega arith

  pub room_put : minus (uint (i.e + 1)) i.r ≡ suc (minus i.e i.r)
  room_put = let b = v.e_word in let d = v.r_word in omega arith
