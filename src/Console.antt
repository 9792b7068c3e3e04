-- ===== src/Console.antt =====
-- src/console.c: the line that is being typed, what consoleread delivers of it, and cprintf. The locks
-- are held throughout each call.
pub mod Ring
pub mod Line
pub mod Keys
pub mod Read
pub mod Session
pub mod Print
mod Tests
use pinky_os.Prelude.{
  ℕ, zero, suc, ◌+◌, ◌-◌, ◌*◌, ◌/◌, ◌%◌, ◌^◌, ◌≤◌, ◌<◌, min, ◌≡◌, refl, sym, ap, ◌∙◌, ◌≢◌, ◌↔◌, ◌⊎◌,
  inl, inr, Bool, true, false, not, ◌&&◌, ◌||◌, Option, none, some, List, [], ◌∷◌, ◌++◌, append-nil,
  append_assoc, arith, ltb, leb, ◌==◌, if◌then◌else◌, eq_of_test, ne_of_test, test_of_ne, eq_self,
  Bool-cases, Option-cases, length, get_or, set, take, replicate, length-append, length-set,
  length-replicate, get_or-set_self, get_or-set_ne, get_or-set,
}

-- INPUT_BUF, C(x) and BACKSPACE
abbrev pub input_buf : ℕ
input_buf = 512

abbrev pub control : ℕ → ℕ
control x = x - 64

abbrev pub backspace : ℕ
backspace = 0x100

-- `uint` arithmetic wraps.
abbrev pub uint : ℕ → ℕ
uint n = n % 2 ^ 32

-- a - b of `uint`
abbrev pub minus : (a b : ℕ) → ℕ
minus a b = uint (a + 2 ^ 32 - b)

-- `input`
pub record Input : Type 0 where
  pub buf : ℕ → ℕ
  pub r : ℕ
  pub w : ℕ
  pub e : ℕ

-- The bytes that `consputc` sends to the UART, while the kernel has not panicked.
abbrev pub consputc : ℕ → List ℕ
consputc c = if c == backspace then 8 ∷ b' ' ∷ 8 ∷ [] else c % 2 ^ 8 ∷ []

-- What a key does: the input, the bytes that are sent, and whether readers are woken.
pub record Keyed : Type 0 where
  pub input : Input
  pub echo : List ℕ
  pub wakes : Bool

abbrev pub quiet : Input → Keyed
quiet i = record { input = i; echo = []; wakes = false }

abbrev pub step_back : Input → Input
step_back i = record i { e = minus i.e 1 }

-- The loop of Control-U in n rounds at most: the input and what is sent.
unfoldable pub kill_line : Input → (n : ℕ) → Input × List ℕ
kill_line i zero = (i, [])
kill_line i (suc n) =
    let rest = kill_line (step_back i) n in
    if not (i.e == i.w) && not (i.buf (minus i.e 1 % input_buf) == b'\n')
    then (rest.0, consputc backspace ++ rest.1)
    else (i, [])

-- `input.buf[input.e++ % INPUT_BUF] = c`
abbrev pub put_char : Input → ℕ → Input
put_char i c = record i {
  buf = λ k. if k == i.e % input_buf then c % 2 ^ 8 else i.buf k;
  e = uint (i.e + 1);
}

-- `input.w = input.e; wakeup(&input.r)` at the end of a line.
unfoldable pub commit : Input → (c : ℕ) → Keyed
commit i c =
    if c == b'\n' || c == control b'D' || i.e == uint (i.r + input_buf)
    then record { input = record i { w = i.e }; echo = consputc c; wakes = true }
    else record { input = i; echo = consputc c; wakes = false }

-- One round of `consoleintr` with the character that `getc` returned; it lists the processes at
-- Control-P, which leaves the input alone.
unfoldable pub key : Input → (c : ℕ) → Keyed
unfolding kill_line commit
key i c =
    if c == control b'P'
    then quiet i
    else if c == control b'U'
    then (let out = kill_line i (minus i.e i.w) in
        record { input = out.0; echo = out.1; wakes = false })
    else if c == control b'H' || c == 0x7f
    then (if not (i.e == i.w)
        then record { input = step_back i; echo = consputc backspace; wakes = false }
        else quiet i)
    else if not (c == 0) && ltb (minus i.e i.r) input_buf
    then (let c = if c == b'\r' then b'\n' else c in commit (put_char i c) c)
    else quiet i

-- `consoleintr`, with the characters that `getc` returns before a negative number.
unfoldable pub consoleintr : Input → List ℕ → Keyed
unfolding key
consoleintr i [] = quiet i
consoleintr i (c ∷ cs) =
    let k = key i c in
    let rest = consoleintr k.input cs in
    record { input = rest.input; echo = k.echo ++ rest.echo; wakes = k.wakes || rest.wakes }

-- How `consoleread` stops: it returns the count, returns -1, or sleeps on `&input.r`.
pub data ReadStop : Type 0 where
  returned : ReadStop
  interrupted : ReadStop
  read_sleep : ReadStop

abbrev pub take_char : Input → Input
take_char i = record i { r = uint (i.r + 1) }

-- The loop of `consoleread` with n bytes left, `begun` when some are copied: those copied from here
-- on, how it stops, and the input that it leaves.
unfoldable pub consoleread : Input → (killed begun : Bool) → (n : ℕ) → List ℕ × (ReadStop × Input)
consoleread i killed begun zero = ([], (returned, i))
consoleread i killed begun (suc n) =
    let c = i.buf (i.r % input_buf) in
    let rest = consoleread (take_char i) killed true n in
    if i.r == i.w
    then ([], (if killed then interrupted else read_sleep, i))
    else if c == control b'D'
    then (
      [],
      (
        returned,
        if begun then record (take_char i) { r = minus (take_char i).r 1 } else take_char i,
      ),
    )
    else if c == b'\n'
    then (c ∷ [], (returned, take_char i))
    else (c ∷ rest.0, rest.1)

-- `consolewrite`: what is sent.
unfoldable pub consolewrite : List ℕ → List ℕ
consolewrite [] = []
consolewrite (c ∷ cs) = consputc (c % 2 ^ 8) ++ consolewrite cs
