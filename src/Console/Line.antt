-- ===== src/Console/Line.antt =====
-- consoleintr of src/console.c against lists: the ready characters and the typed line.
use pinky_os.Prelude.{
  ℕ, zero, suc, ◌+◌, ◌%◌, ◌^◌, ◌<◌, ◌≡◌, refl, sym, ap, ◌∙◌, ◌≢◌, inl, inr, Bool, true, false, not,
  ◌&&◌, ◌||◌, List, [], ◌∷◌, ◌++◌, arith, ltb, ◌==◌, if◌then◌else◌, eq_of_test, ne_of_test,
  test_of_ne, eq_self, Bool-cases, length,
}
use mathlib.Core.Path.{subst}
use pinky_os.Console.{
  Input, Keyed, quiet, minus, uint, control, input_buf, put_char, step_back, kill_line, commit,
}
use pinky_os.Console.Ring.{
  window, ready, typed, IsOneLine, IsInput, IsOneLine-snoc, window_append, window_cong, init,
  step_back-IsInput, last_typed, ready-put_char, typed-put_char, order_put, room_put,
}

-- The characters that readers may have, and the line that is being typed.
pub record Line : Type 0 where
  pub ready : List ℕ
  pub typed : List ℕ

abbrev pub view : Input → Line
view i = record { ready = ready i; typed = typed i }

-- A character at the end of the typed line, which is ready when it ends or fills the ring.
abbrev pub line_add : Line → ℕ → Line
line_add l c =
    if c == b'\n' || c == control b'D' || length l.ready + suc (length l.typed) == input_buf
    then record { ready = l.ready ++ (l.typed ++ c ∷ []); typed = [] }
    else record l { typed = l.typed ++ c ∷ [] }

-- What a key means for the two lists.
abbrev pub line_key : Line → ℕ → Line
line_key l c =
    if c == control b'P'
    then l
    else if c == control b'U'
    then record l { typed = [] }
    else if c == control b'H' || c == 0x7f
    then record l { typed = init l.typed }
    else if not (c == 0) && ltb (length l.ready + length l.typed) input_buf
    then line_add l (if c == b'\r' then b'\n' else c)
    else l

abbrev pub line_keys : Line → List ℕ → Line
line_keys l [] = l
line_keys l (c ∷ cs) = line_keys (line_key l c) cs

pub length-window : (buf : ℕ → ℕ) (x n : ℕ) → length (window buf x n) ≡ n
length-window buf x zero = refl
length-window buf x (suc n) = rw (length-window buf (x + 1) n)

-- What a key leaves.
pub record Does (i : Input) (l : Line) (k : Keyed) : Type 0 where
  pub valid : IsInput k.input
  pub line : view k.input ≡ l
  pub wakes : k.wakes ≡ false → ready k.input ≡ ready i

pub quiet-Does : (i : Input) → IsInput i → Does i (view i) (quiet i)
quiet-Does i v = record { valid = v; line = refl; wakes = λ e. refl }

abbrev pub pair : List ℕ → List ℕ → Line
pair a b = record { ready = a; typed = b }

pub line_eq : (a b c d : List ℕ) → a ≡ b → c ≡ d → pair a c ≡ pair b d
line_eq a b c d p q = ap (λ (x : List ℕ). pair x c) p ∙ ap (pair b) q

kill_more :
    (i : Input) (n : ℕ)
    → i.e ≢ i.w
    → i.buf (minus i.e 1 % 512) ≢ b'\n'
    → (kill_line i (suc n)).0 ≡ (kill_line (step_back i) n).0
unfolding kill_line
kill_more i n ne nl = rw (test_of_ne i.e i.w ne, test_of_ne (i.buf (minus i.e 1 % 512)) b'\n' nl)

kill_none : (i : Input) → (kill_line i 0).0 ≡ i
unfolding kill_line
kill_none i = refl

-- Control-U takes all of the typed line away.
pub kill_line_lem :
    (n : ℕ) (i : Input)
    → IsInput i
    → minus i.e i.w ≡ n
    → IsInput (kill_line i n).0 × (view (kill_line i n).0 ≡ pair (ready i) [])
kill_line_lem zero i v h = (
  subst IsInput (sym (kill_none i)) v,
  ap view (kill_none i) ∙ ap (λ (n : ℕ). pair (ready i) (window i.buf i.w n)) h,
)
kill_line_lem (suc n) i v h =
    let ne : i.e ≢ i.w = (λ p. let a = v.w_word in omega arith) in
    let more = kill_more i n ne (last_typed i v ne) in
    let rest =
      kill_line_lem n (step_back i) (step_back-IsInput i v ne)
        (let a = v.w_word in let b = v.e_word in omega arith) in
    (subst IsInput (sym more) rest.0, ap view more ∙ rest.1)

commit_ends :
    (i : Input) (c : ℕ)
    → c == b'\n' || c == control b'D' || i.e == uint (i.r + 512) ≡ true
    → (commit i c).input ≡ record i { w = i.e } × ((commit i c).wakes ≡ true)
unfolding commit
commit_ends i c e = (rw (e), rw (e))

commit_goes :
    (i : Input) (c : ℕ)
    → c == b'\n' || c == control b'D' || i.e == uint (i.r + 512) ≡ false
    → (commit i c).input ≡ i × ((commit i c).wakes ≡ false)
unfolding commit
commit_goes i c e = (rw (e), rw (e))

same_test : (a b c d : ℕ) → (a ≡ b → c ≡ d) → (c ≡ d → a ≡ b) → (a == b) ≡ (c == d)
same_test a b c d f g = elim (Bool-cases (c == d)) [
  | inl e ↦ ap (λ (n : ℕ). n == b) (g (eq_of_test c d e)) ∙ eq_self b ∙ sym e
  | inr e ↦ test_of_ne a b (λ p. ne_of_test c d e (f p)) ∙ sym e
]

module _ (i : Input) (c : ℕ) (v : IsInput i) (byte : c < 256) (room : minus i.e i.r < 512) where
  abbrev added : Input
  added = put_char i c

  one_more : typed added ≡ typed i ++ c ∷ []
  one_more =
      typed-put_char i c v room
      ∙ ap (λ (k : ℕ). typed i ++ k ∷ []) {x = c % 2 ^ 8} {y = c} (omega arith)

  -- The test of a full ring.
  ring_full : (length (ready i) + suc (length (typed i)) == 512) ≡ (added.e == uint (added.r + 512))
  ring_full =
      let o = v.order in
      let r = v.r_word in
      let m = room_put i c v room in
      ap (λ (n : ℕ). n + suc (length (typed i)) == 512) (length-window i.buf i.r (minus i.w i.r))
      ∙ ap (λ (n : ℕ). minus i.w i.r + suc n == 512) (length-window i.buf i.w (minus i.e i.w))
      ∙ same_test (minus i.w i.r + suc (minus i.e i.w)) 512 added.e (uint (added.r + 512))
          (λ p. omega arith) (λ p. omega arith)

  abbrev ended : Input
  ended = record added { w = added.e }

  nothing_typed : typed ended ≡ []
  nothing_typed = ap (window added.buf added.e) {x = minus added.e added.e} {y = 0} (omega arith)

  ended-IsInput : IsInput ended
  ended-IsInput =
      let r = v.r_word in
      let m = room_put i c v room in
      record {
        r_word = v.r_word;
        w_word = omega arith;
        e_word = omega arith;
        order = omega arith;
        room = omega arith;
        line = subst IsOneLine (sym nothing_typed) tt;
      }

  all_ready : ready ended ≡ ready i ++ (typed i ++ c ∷ [])
  all_ready =
      let w = v.w_word in
      let r = v.r_word in
      ap (window added.buf i.r) (sym (order_put i c v room))
      ∙ window_append added.buf i.r (minus i.w i.r) (minus added.e i.w)
      ∙ ap (λ (xs : List ℕ). window added.buf i.r (minus i.w i.r) ++ xs)
          (window_cong added.buf (i.r + minus i.w i.r) i.w (minus added.e i.w) (omega arith))
      ∙ ap (λ (xs : List ℕ). xs ++ typed added) (ready-put_char i c v room)
      ∙ ap (λ (xs : List ℕ). ready i ++ xs) one_more

  added-IsInput : c ≢ b'\n' → IsInput added
  added-IsInput ne =
      let m = room_put i c v room in
      record {
        r_word = v.r_word;
        w_word = v.w_word;
        e_word = omega arith;
        order = order_put i c v room;
        room = omega arith;
        line = subst IsOneLine (sym one_more) (IsOneLine-snoc (typed i) c v.line ne);
      }

  abbrev ends : Bool → Bool
  ends full = c == b'\n' || c == control b'D' || full

  abbrev line_next : Bool → Line
  line_next end =
      if end then pair (ready i ++ (typed i ++ c ∷ [])) [] else pair (ready i) (typed i ++ c ∷ [])

  abbrev full_now : Bool
  full_now = added.e == uint (added.r + 512)

  line_add_next : (end : Bool) → ends full_now ≡ end → line_add (view i) c ≡ line_next end
  line_add_next end e = ap (λ (b : Bool). line_next (ends b)) ring_full ∙ ap line_next e

  ended-Does : ends full_now ≡ true → Does i (line_add (view i) c) (commit added c)
  ended-Does e =
      let left = commit_ends added c e in
      record {
        valid = subst IsInput (sym left.0) ended-IsInput;
        line =
            ap view left.0 ∙ line_eq _ _ _ _ all_ready nothing_typed ∙ sym (line_add_next true e);
        wakes = λ h. cc (h, left.1);
      }

  going-Does : ends full_now ≡ false → Does i (line_add (view i) c) (commit added c)
  going-Does e =
      let left = commit_goes added c e in
      let ne : c ≢ b'\n' = (λ p. ground arith) in
      record {
        valid = subst IsInput (sym left.0) (added-IsInput ne);
        line =
            ap view left.0
            ∙ line_eq _ _ _ _ (ready-put_char i c v room) one_more
            ∙ sym (line_add_next false e);
        wakes = λ h. ap ready left.0 ∙ ready-put_char i c v room;
      }

  -- A character is added to the line, which ends as its two lists say.
  pub commit_lem : Does i (line_add (view i) c) (commit added c)
  commit_lem = elim (Bool-cases (ends full_now)) [ inl e ↦ ended-Does e | inr e ↦ going-Does e ]
