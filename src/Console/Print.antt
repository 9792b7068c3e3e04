-- ===== src/Console/Print.antt =====
-- printint and cprintf of src/console.c: the bytes that are sent, while the kernel has not panicked.
pub mod Digits
use pinky_os.Prelude.{
  ℕ, zero, suc, ◌+◌, ◌-◌, ◌*◌, ◌/◌, ◌%◌, ◌^◌, ◌≤◌, ◌<◌, min, ◌≡◌, refl, sym, ap, ◌∙◌, ◌≢◌, ◌↔◌, ◌⊎◌,
  inl, inr, Bool, true, false, not, ◌&&◌, ◌||◌, Option, none, some, List, [], ◌∷◌, ◌++◌, append-nil,
  append_assoc, arith, ltb, leb, ◌==◌, if◌then◌else◌, eq_of_test, ne_of_test, test_of_ne, eq_self,
  Bool-cases, Option-cases, length, get_or, set, take, replicate, length-append, length-set,
  length-replicate, get_or-set_self, get_or-set_ne, get_or-set,
}
use mathlib.Core.Path.{subst}
use pinky_os.Console.{consputc}

-- digits[d]
abbrev pub hex_digits : List ℕ
hex_digits =
    b'0' ∷ b'1' ∷ b'2' ∷ b'3' ∷ b'4' ∷ b'5' ∷ b'6' ∷ b'7' ∷ b'8' ∷ b'9' ∷ b'a' ∷ b'b' ∷ b'c' ∷ b'd'
    ∷ b'e' ∷ b'f' ∷ []

-- The characters that the do loop puts in `buf`, the first at index 0, in n rounds at most.
unfoldable pub put_digits : (x base : ℕ) → (n : ℕ) → List ℕ
put_digits x base zero = []
put_digits x base (suc n) =
    let rest = put_digits (x / base) base n in
    get_or hex_digits (x % base) 0 ∷ (if x / base == 0 then [] else rest)

-- `while (--i >= 0) consputc(buf[i])`
unfoldable pub send_back : List ℕ → List ℕ
send_back [] = []
send_back (c ∷ cs) = send_back cs ++ consputc c

-- `printint`; `xx` has no sign, so `xx < 0` is never true.
unfoldable pub printint : (xx base : ℕ) → (sign : Bool) → List ℕ
printint xx base sign =
    let negative = sign && ltb xx 0 in
    let x = if negative then 2 ^ 64 - xx else xx in
    send_back (put_digits x base 64 ++ (if negative then b'-' ∷ [] else []))

-- The characters of a text, each sent.
abbrev pub send : List ℕ → List ℕ
send [] = []
send (c ∷ cs) = consputc c ++ send cs

abbrev then_send : List ℕ → Option (List ℕ) → Option (List ℕ)
then_send cs none = none
then_send cs (some ds) = some (cs ++ ds)

abbrev null_text : List ℕ
null_text = b'(' ∷ b'n' ∷ b'u' ∷ b'l' ∷ b'l' ∷ b')' ∷ []

-- What a directive sends for an argument, when it takes one.
abbrev directive : (text : ℕ → List ℕ) → (c word : ℕ) → Option (List ℕ)
directive text c word =
    if c == b'd'
    then some (printint (word % 2 ^ 32) 10 true)
    else if c == b'x' || c == b'p'
    then some (printint (word % 2 ^ 64) 16 false)
    else if c == b's'
    then some (send (if word == 0 then null_text else text word))
    else none

-- What it sends when it takes none.
abbrev literal : ℕ → List ℕ
literal c = if c == b'%' then consputc b'%' else consputc b'%' ++ consputc c

-- `cprintf` with the words that va_arg gives and the text at each address: `none` when a directive has
-- no argument. The end of the list is the NUL of the format.
unfoldable pub cprintf : (text : ℕ → List ℕ) → (fmt : List ℕ) → (args : List ℕ) → Option (List ℕ)
unfolding printint
cprintf text [] args = some []
cprintf text (c ∷ []) args = some (if c == 0 || c == b'%' then [] else consputc c)
cprintf text (c ∷ (d ∷ fmt)) args =
    let next = then_send (consputc c) (cprintf text (d ∷ fmt) args) in
    let after = (λ (ws : List ℕ). cprintf text fmt ws) in
    if c == 0
    then some []
    else if not (c == b'%')
    then next
    else if d == 0
    then some []
    else if d == b'd' || d == b'x' || d == b'p' || d == b's'
    then elim args [
      | [] ↦ none
      | word ∷ words ↦ elim (directive text d word) [
        | none ↦ none
        | some out ↦ then_send out (after words)
      ]
    ]
    else then_send (literal d) (after args)
