-- ===== src/Console/Read.antt =====
-- consoleread of src/console.c against the list of the characters that readers may have.
use pinky_os.Prelude.{
  ℕ, zero, suc, ◌+◌, ◌%◌, ◌≡◌, refl, sym, ap, ◌∙◌, ◌≢◌, inl, inr, Bool, true, false, List, [], ◌∷◌,
  arith, ◌==◌, if◌then◌else◌, eq_of_test, ne_of_test, Bool-cases,
}
use mathlib.Core.Path.{subst}
use pinky_os.Console.{
  Input, ReadStop, returned, interrupted, read_sleep, take_char, minus, uint, control, input_buf,
  consoleread,
}
use pinky_os.Console.Ring.{window, window_cong, ready, typed, IsInput}

-- What is read: the characters, how the call stops, and the characters that are left.
pub record Given : Type 0 where
  pub out : List ℕ
  pub stop : ReadStop
  pub left : List ℕ

abbrev pub given : List ℕ → ReadStop → List ℕ → Given
given xs stop ys = record { out = xs; stop = stop; left = ys }

-- At most n characters to the end of a line, without a Control-D, which ends the call: it stays for the
-- next call when something was read.
abbrev pub give : List ℕ → (killed begun : Bool) → (n : ℕ) → Given
give xs killed begun zero = record { out = []; stop = returned; left = xs }
give [] killed begun (suc n) = record {
  out = [];
  stop = if killed then interrupted else read_sleep;
  left = [];
}
give (c ∷ xs) killed begun (suc n) =
    let rest = give xs killed true n in
    if c == control b'D'
    then record { out = []; stop = returned; left = if begun then c ∷ xs else xs }
    else if c == b'\n'
    then record { out = c ∷ []; stop = returned; left = xs }
    else record rest { out = c ∷ rest.out }

-- A character taken off the ready ones.
module _ (i : Input) (v : IsInput i) (ne : i.r ≢ i.w) where
  fewer : minus i.w i.r ≡ suc (minus i.w (uint (i.r + 1)))
  fewer = let a = v.r_word in let b = v.w_word in omega arith

  pub take_char-IsInput : IsInput (take_char i)
  take_char-IsInput =
      let a = v.r_word in
      let b = v.w_word in
      let d = v.e_word in
      let o = v.order in
      let m = v.room in
      record {
        r_word = omega arith;
        w_word = v.w_word;
        e_word = v.e_word;
        order = omega arith;
        room = omega arith;
        line = v.line;
      }

  pub ready-take_char : ready i ≡ i.buf (i.r % 512) ∷ ready (take_char i)
  ready-take_char =
      ap (window i.buf i.r) fewer
      ∙ ap (λ (xs : List ℕ). i.buf (i.r % 512) ∷ xs)
          (window_cong i.buf (i.r + 1) (uint (i.r + 1)) (minus i.w (uint (i.r + 1))) (omega arith))

  pub put_back : record (take_char i) { r = minus (uint (i.r + 1)) 1 } ≡ i
  put_back =
      ap (λ (r : ℕ). record i { r = r }) {x = minus (uint (i.r + 1)) 1} {y = i.r}
        (let a = v.r_word in omega arith)

-- The results of consoleread are those of the list of ready characters.
pub record Reads (i : Input) (g : Given) (out : List ℕ × (ReadStop × Input)) : Type 0 where
  pub chars : out.0 ≡ g.out
  pub stop : out.1.0 ≡ g.stop
  pub valid : IsInput out.1.1
  pub left : ready out.1.1 ≡ g.left
  pub typed_kept : typed out.1.1 ≡ typed i

none_ready : (i : Input) → IsInput i → i.r ≡ i.w → ready i ≡ []
none_ready i v p =
    ap (window i.buf i.r) {x = minus i.w i.r} {y = 0} (let a = v.r_word in omega arith)

empty :
    (i : Input) (stop : ReadStop)
    → IsInput i
    → ready i ≡ []
    → Reads i (given [] stop []) ([], (stop, i))
empty i stop v h = record { chars = refl; stop = refl; valid = v; left = h; typed_kept = refl }

ended :
    (i : Input) (out : List ℕ)
    → IsInput i
    → i.r ≢ i.w
    → Reads i (given out returned (ready (take_char i))) (out, (returned, take_char i))
ended i out v ne = record {
  chars = refl;
  stop = refl;
  valid = take_char-IsInput i v ne;
  left = refl;
  typed_kept = refl;
}

-- A Control-D, of a call that has read something or of one that has not.
at_end :
    (i : Input) (begun : Bool)
    → IsInput i
    → i.r ≢ i.w
    → Reads i
        (given [] returned
          (if begun then i.buf (i.r % 512) ∷ ready (take_char i) else ready (take_char i)))
        (
          [],
          (
            returned,
            if begun then record (take_char i) { r = minus (uint (i.r + 1)) 1 } else take_char i,
          ),
        )
at_end i true v ne = record {
  chars = refl;
  stop = refl;
  valid = subst IsInput (sym (put_back i v ne)) v;
  left = ap ready (put_back i v ne) ∙ ready-take_char i v ne;
  typed_kept = refl;
}
at_end i false v ne = ended i [] v ne

one_more :
    (i : Input) (g : Given) (out : List ℕ × (ReadStop × Input))
    → Reads (take_char i) g out
    → Reads i (given (i.buf (i.r % 512) ∷ g.out) g.stop g.left) (i.buf (i.r % 512) ∷ out.0, out.1)
one_more i g out d = record {
  chars = ap (λ (xs : List ℕ). i.buf (i.r % 512) ∷ xs) d.chars;
  stop = d.stop;
  valid = d.valid;
  left = d.left;
  typed_kept = d.typed_kept;
}

-- On a ring in order, consoleread gives what `give` takes off the list of the ready characters, leaves
-- the others of them ready, stops as `give` does, leaves the line being typed, and keeps the ring in order.
pub consoleread_lem :
    (i : Input) (killed begun : Bool) (n : ℕ)
    → IsInput i
    → Reads i (give (ready i) killed begun n) (consoleread i killed begun n)
unfolding consoleread
consoleread_lem i killed begun zero v = record {
  chars = refl;
  stop = refl;
  valid = v;
  left = refl;
  typed_kept = refl;
}
consoleread_lem i killed begun (suc n) v = elim (Bool-cases (i.r == i.w)) [
  | inl e ↦
      rw (e, none_ready i v (eq_of_test i.r i.w e))
        (empty i (if killed then interrupted else read_sleep) v
          (none_ready i v (eq_of_test i.r i.w e)))
  | inr e ↦
      let ne = ne_of_test i.r i.w e in
      let rest = consoleread_lem (take_char i) killed true n (take_char-IsInput i v ne) in
      let c = i.buf (i.r % input_buf) in
      elim (Bool-cases (c == control b'D')) [
        | inl d ↦ rw (e, ready-take_char i v ne, d) (at_end i begun v ne)
        | inr d ↦ elim (Bool-cases (c == b'\n')) [
          | inl l ↦ rw (e, ready-take_char i v ne, d, l) (ended i (c ∷ []) v ne)
          | inr l ↦ rw (e, ready-take_char i v ne, d, l) (one_more i _ _ rest)
        ]
      ]
]
