-- ===== src/Console/Session.antt =====
-- consoleintr and consoleread of src/console.c together: a line is typed, and then read.
use pinky_os.Prelude.{
  ℕ, zero, suc, ◌+◌, ◌<◌, ◌≡◌, refl, sym, ap, ◌∙◌, ◌≢◌, Bool, true, false, ◌||◌, List, [], ◌∷◌,
  ◌++◌, append_assoc, arith, ltb, ◌==◌, length, length-append,
}
use pinky_os.Console.{Input, returned, control, consoleintr, consoleread}
use pinky_os.Console.Ring.{ready, typed, IsInput}
use pinky_os.Console.Line.{Line, view, pair, line_eq, line_key, line_keys}
use pinky_os.Console.Keys.{AllBytes, consoleintr_lem}
use pinky_os.Console.Read.{Given, give, given, consoleread_lem}

-- The characters that consoleintr or consoleread treat in a way of their own.
abbrev pub is_special : ℕ → Bool
is_special c =
    c == 0
    || c == control b'D'
    || c == control b'H'
    || c == b'\n'
    || c == b'\r'
    || c == control b'P'
    || c == control b'U'
    || c == 0x7f

abbrev pub IsText : List ℕ → Type 0
IsText [] = Unit {0}
IsText (c ∷ cs) = ((c < 256) × (is_special c ≡ false)) × IsText cs

record Plain (c : ℕ) : Type 0 where
  nul : c == 0 ≡ false
  eof : c == control b'D' ≡ false
  rubout : c == control b'H' || c == 0x7f ≡ false
  lf : c == b'\n' ≡ false
  cr : c == b'\r' ≡ false
  list_key : c == control b'P' ≡ false
  kill_key : c == control b'U' ≡ false

is_special-Plain : (c : ℕ) → is_special c ≡ false → Plain c
is_special-Plain c h = record {
  nul = ground arith;
  eof = ground arith;
  rubout = ground arith;
  lf = ground arith;
  cr = ground arith;
  list_key = ground arith;
  kill_key = ground arith;
}

-- A character of a text goes to the end of the typed line.
line_key-text :
    (l : Line) (c : ℕ)
    → Plain c
    → length l.ready + suc (length l.typed) < 512
    → line_key l c ≡ pair l.ready (l.typed ++ c ∷ [])
line_key-text l c p room =
    let fits : ltb (length l.ready + length l.typed) 512 ≡ true = ground arith in
    let more : (length l.ready + suc (length l.typed) == 512) ≡ false = ground arith in
    rw (p.list_key, p.kill_key, p.rubout, p.nul, fits, p.cr, p.lf, p.eof, more)

line_key-newline :
    (l : Line)
    → length l.ready + length l.typed < 512
    → line_key l b'\n' ≡ pair (l.ready ++ (l.typed ++ b'\n' ∷ [])) []
line_key-newline l room =
    let fits : ltb (length l.ready + length l.typed) 512 ≡ true = ground arith in rw (fits)

typed_text :
    (l : Line) (cs : List ℕ)
    → IsText cs
    → length l.ready + (length l.typed + length cs) < 512
    → line_keys l (cs ++ b'\n' ∷ []) ≡ pair (l.ready ++ (l.typed ++ (cs ++ b'\n' ∷ []))) []
typed_text l [] t room = line_key-newline l (omega arith)
typed_text l (c ∷ cs) t room =
    let n = length-append l.typed (c ∷ []) in
    ap (λ (k : Line). line_keys k (cs ++ b'\n' ∷ []))
      (line_key-text l c (is_special-Plain c t.0.1) (omega arith))
    ∙ typed_text (pair l.ready (l.typed ++ c ∷ [])) cs t.1 (omega arith)
    ∙ ap (λ (xs : List ℕ). pair (l.ready ++ xs) [])
        (append_assoc l.typed (c ∷ []) (cs ++ b'\n' ∷ []))

give_text :
    (cs : List ℕ) (killed begun : Bool) (n : ℕ)
    → IsText cs
    → length cs < n
    → give (cs ++ b'\n' ∷ []) killed begun n ≡ given (cs ++ b'\n' ∷ []) returned []
give_text [] killed begun zero t h = ground arith
give_text [] killed begun (suc n) t h = refl
give_text (c ∷ cs) killed begun zero t h = ground arith
give_text (c ∷ cs) killed begun (suc n) t h =
    let p = is_special-Plain c t.0.1 in
    rw (p.eof, p.lf, give_text cs killed true n t.1 (omega arith))

IsText-AllBytes : (cs : List ℕ) → IsText cs → AllBytes (cs ++ b'\n' ∷ [])
IsText-AllBytes [] t = (ground arith, tt)
IsText-AllBytes (c ∷ cs) t = (t.0.0, IsText-AllBytes cs t.1)

not_empty : (cs : List ℕ) (c : ℕ) → cs ++ c ∷ [] ≢ []
not_empty [] c p = ground (arith, p)
not_empty (x ∷ cs) c p = ground (arith, p)

woken : (b : Bool) → b ≢ false → b ≡ true
woken true h = refl
woken false h = absurd (h refl)

-- A line that was typed and read.
pub record LineRead (i : Input) (text : List ℕ) (killed : Bool) (n : ℕ) : Type 0 where
  pub wakes : (consoleintr i text).wakes ≡ true
  pub chars : (consoleread (consoleintr i text).input killed false n).0 ≡ text
  pub stop : (consoleread (consoleintr i text).input killed false n).1.0 ≡ returned
  pub valid : IsInput (consoleread (consoleintr i text).input killed false n).1.1
  pub left : ready (consoleread (consoleintr i text).input killed false n).1.1 ≡ []
  pub nothing_typed : typed (consoleread (consoleintr i text).input killed false n).1.1 ≡ []

-- On a ring in order with nothing ready and nothing typed, wherever its places are: a line of fewer than
-- 512 characters, none of them special, and the newline, given to consoleintr, wakes the readers, and
-- consoleread with room for the line returns it as it was typed and leaves the ring empty and in order.
pub line_read :
    (i : Input) (cs : List ℕ) (killed : Bool) (n : ℕ)
    → IsInput i
    → ready i ≡ []
    → typed i ≡ []
    → IsText cs
    → length cs < 512
    → length cs < n
    → LineRead i (cs ++ b'\n' ∷ []) killed n
line_read i cs killed n v no_ready no_typed text fits room =
    let line = cs ++ b'\n' ∷ [] in
    let j = (consoleintr i line).input in
    let does = consoleintr_lem i line v (IsText-AllBytes cs text) in
    let seen : view j ≡ pair line [] =
      does.line
      ∙ ap (λ (l : Line). line_keys l line) (line_eq _ _ _ _ no_ready no_typed)
      ∙ typed_text (pair [] []) cs text (omega arith) in
    let ready_line : ready j ≡ line = ap Line.ready seen in
    let read = consoleread_lem j killed false n does.valid in
    let gives : give (ready j) killed false n ≡ given line returned [] =
      ap (λ (xs : List ℕ). give xs killed false n) ready_line
      ∙ give_text cs killed false n text room in
    record {
      wakes =
          woken (consoleintr i line).wakes
            (λ h. not_empty cs b'\n' (sym ready_line ∙ does.wakes h ∙ no_ready));
      chars = read.chars ∙ ap Given.out gives;
      stop = read.stop ∙ ap Given.stop gives;
      valid = read.valid;
      left = read.left ∙ ap Given.left gives;
      nothing_typed = read.typed_kept ∙ ap Line.typed seen;
    }
