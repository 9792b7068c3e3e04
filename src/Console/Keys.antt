-- ===== src/Console/Keys.antt =====
-- consoleintr of src/console.c against lists: each key, and the keys one after the other.
use pinky_os.Prelude.{
  ℕ, ◌+◌, ◌<◌, ◌≡◌, refl, sym, ap, ◌∙◌, ◌≢◌, inl, inr, Bool, true, false, not, ◌&&◌, ◌||◌, List, [],
  ◌∷◌, arith, ltb, ◌==◌, if◌then◌else◌, eq_of_test, ne_of_test, Bool-cases, length,
}
use pinky_os.Console.{
  Input, Keyed, quiet, minus, control, input_buf, put_char, step_back, kill_line, commit, key,
  consoleintr,
}
use pinky_os.Console.Ring.{window, ready, typed, IsInput, init, step_back-IsInput, typed-step_back}
use pinky_os.Console.Line.{
  Line, view, line_add, line_key, line_keys, length-window, Does, quiet-Does, pair, kill_line_lem,
  commit_lem,
}

held : (i : Input) → IsInput i → length (ready i) + length (typed i) ≡ minus i.e i.r
held i v =
    ap (λ (n : ℕ). n + length (typed i)) (length-window i.buf i.r (minus i.w i.r))
    ∙ ap (λ (n : ℕ). minus i.w i.r + n) (length-window i.buf i.w (minus i.e i.w))
    ∙ v.order

abbrev killed : Input → Keyed
killed i =
    (let out = kill_line i (minus i.e i.w) in record { input = out.0; echo = out.1; wakes = false })

kill_key : (i : Input) → IsInput i → Does i (pair (ready i) []) (killed i)
kill_key i v =
    let all = kill_line_lem (minus i.e i.w) i v refl in
    record { valid = all.0; line = all.1; wakes = λ h. ap Line.ready all.1 }

-- Backspace.
abbrev erase : Input → Keyed
erase i =
    if not (i.e == i.w)
    then record { input = step_back i; echo = 8 ∷ b' ' ∷ 8 ∷ []; wakes = false }
    else quiet i

nothing_erased :
    (i : Input) → i.e ≡ i.w → IsInput i → Does i (pair (ready i) (init (typed i))) (quiet i)
nothing_erased i p v =
    let none_typed : typed i ≡ [] =
      ap (window i.buf i.w) {x = minus i.e i.w} {y = 0} (let a = v.w_word in omega arith) in
    record {
      valid = v;
      line = ap (pair (ready i)) (none_typed ∙ sym (ap init none_typed));
      wakes = λ h. refl;
    }

abbrev backed : Input → Keyed
backed i = record { input = step_back i; echo = 8 ∷ b' ' ∷ 8 ∷ []; wakes = false }

one_erased :
    (i : Input) → i.e ≢ i.w → IsInput i → Does i (pair (ready i) (init (typed i))) (backed i)
one_erased i ne v = record {
  valid = step_back-IsInput i v ne;
  line = ap (pair (ready i)) (typed-step_back i v ne);
  wakes = λ h. refl;
}

erase_lem : (i : Input) → IsInput i → Does i (pair (ready i) (init (typed i))) (erase i)
erase_lem i v = elim (Bool-cases (i.e == i.w)) [
  | inl e ↦ rw e (nothing_erased i (eq_of_test i.e i.w e) v)
  | inr e ↦ rw e (one_erased i (ne_of_test i.e i.w e) v)
]

-- A character that is no command.
abbrev plain : Input → ℕ → Keyed
plain i c =
    if not (c == 0) && ltb (minus i.e i.r) input_buf
    then (let c = if c == b'\r' then b'\n' else c in commit (put_char i c) c)
    else quiet i

abbrev line_plain : Line → ℕ → Line
line_plain l c =
    if not (c == 0) && ltb (length l.ready + length l.typed) input_buf
    then line_add l (if c == b'\r' then b'\n' else c)
    else l

plain_lem : (i : Input) (c : ℕ) → IsInput i → c < 256 → Does i (line_plain (view i) c) (plain i c)
plain_lem i c v byte =
    let h = held i v in
    elim (Bool-cases (not (c == 0) && ltb (minus i.e i.r) input_buf)) [
      | inl e ↦
          rw (h, e) (commit_lem i (if c == b'\r' then b'\n' else c) v (ground arith) (ground arith))
      | inr e ↦ rw (h, e) (quiet-Does i v)
    ]

-- A key does to the two lists what `line_key` says.
key_lem : (i : Input) (c : ℕ) → IsInput i → c < 256 → Does i (line_key (view i) c) (key i c)
unfolding key
key_lem i c v byte = elim (Bool-cases (c == control b'P')) [
  | inl e ↦ rw e (quiet-Does i v)
  | inr e ↦ elim (Bool-cases (c == control b'U')) [
    | inl f ↦ rw (e, f) (kill_key i v)
    | inr f ↦ elim (Bool-cases (c == control b'H' || c == 0x7f)) [
      | inl g ↦ rw (e, f, g) (erase_lem i v)
      | inr g ↦ rw (e, f, g) (plain_lem i c v byte)
    ]
  ]
]

neither : (a b : Bool) → a || b ≡ false → (a ≡ false) × (b ≡ false)
neither true b h = ground arith
neither false b h = (refl, h)

abbrev pub AllBytes : List ℕ → Type 0
AllBytes [] = Unit {0}
AllBytes (c ∷ cs) = (c < 256) × AllBytes cs

-- consoleintr, given characters that are bytes, keeps the ring in order and does to the ready
-- characters and the line being typed what the keys say, one after the other; it wakes the readers
-- when it changes what they may have.
pub consoleintr_lem :
    (i : Input) (cs : List ℕ)
    → IsInput i
    → AllBytes cs
    → Does i (line_keys (view i) cs) (consoleintr i cs)
unfolding consoleintr
consoleintr_lem i [] v b = quiet-Does i v
consoleintr_lem i (c ∷ cs) v b =
    let one = key_lem i c v b.0 in
    let rest = consoleintr_lem (key i c).input cs one.valid b.1 in
    record {
      valid = rest.valid;
      line = rest.line ∙ ap (λ (l : Line). line_keys l cs) one.line;
      wakes =
          λ h. (let quiet = neither (key i c).wakes _ h in rest.wakes quiet.1 ∙ one.wakes quiet.0);
    }
