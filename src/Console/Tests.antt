-- ===== src/Console/Tests.antt =====
-- Runs of src/console.c: lines with editing keys, a line that fills the ring, and the witnesses.
use pinky_os.Prelude.{
  ℕ, ◌+◌, ◌^◌, ◌≡◌, refl, false, some, List, [], ◌∷◌, arith, ◌==◌, if◌then◌else◌,
}
use pinky_os.Console.{Input, consoleintr, consoleread, key}
use pinky_os.Console.Ring.{ready, IsInput}
use pinky_os.Console.Line.{view, pair, line_keys, Does}
use pinky_os.Console.Keys.{consoleintr_lem}
use pinky_os.Console.Read.{give, Reads, consoleread_lem}
use pinky_os.Console.Print.{put_digits, send_back, printint, cprintf}
use pinky_os.Console.Session.{LineRead, line_read}

-- A ring whose places are just below 2^32.
abbrev fresh : Input
fresh = record { buf = λ k. 0; r = 4294967294; w = 4294967294; e = 4294967294 }

fresh-IsInput : IsInput fresh
fresh-IsInput = record {
  r_word = ground arith;
  w_word = ground arith;
  e_word = ground arith;
  order = refl;
  room = ground arith;
  line = tt;
}

-- `lx`, backspace, `s`, a return
abbrev edited : List ℕ
edited = b'l' ∷ b'x' ∷ 8 ∷ b's' ∷ b'\r' ∷ []

edited_ready : view (consoleintr fresh edited).input ≡ pair (b'l' ∷ b's' ∷ b'\n' ∷ []) []
unfolding consoleintr key
edited_ready = refl

consoleintr_lem_example : Does fresh (line_keys (view fresh) edited) (consoleintr fresh edited)
consoleintr_lem_example =
    consoleintr_lem fresh edited fresh-IsInput
      (ground arith, (ground arith, (ground arith, (ground arith, (ground arith, tt)))))

-- `ls`, a newline, and a character of the next line
abbrev filled : Input
filled = record {
  buf = λ k. if k == 510 then b'l' else if k == 511 then b's' else if k == 0 then b'\n' else b'x';
  r = 4294967294;
  w = 1;
  e = 2;
}

filled-IsInput : IsInput filled
filled-IsInput = record {
  r_word = ground arith;
  w_word = ground arith;
  e_word = ground arith;
  order = refl;
  room = ground arith;
  line = (ground arith, tt);
}

consoleread_lem_example :
    Reads filled (give (ready filled) false false 2) (consoleread filled false false 2)
consoleread_lem_example = consoleread_lem filled false false 2 filled-IsInput

filled_chars : (consoleread filled false false 2).0 ≡ b'l' ∷ b's' ∷ []
unfolding consoleread
filled_chars = refl

line_read_example : LineRead fresh (b'l' ∷ b's' ∷ b'\n' ∷ []) false 10
line_read_example =
    line_read fresh (b'l' ∷ b's' ∷ []) false 10 fresh-IsInput refl refl
      ((ground arith, refl), ((ground arith, refl), tt)) (ground arith) (ground arith)

-- `x%d%%`: only 32 bits of the argument count.
cprintf_number :
    cprintf (λ k. []) (b'x' ∷ b'%' ∷ b'd' ∷ b'%' ∷ b'%' ∷ []) ((2 ^ 32 + 42) ∷ [])
    ≡ some (b'x' ∷ b'4' ∷ b'2' ∷ b'%' ∷ [])
unfolding cprintf printint put_digits send_back
cprintf_number = refl
