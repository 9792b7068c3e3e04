-- ===== src/Usr/Grep/Lines.antt =====
-- The lines that grep of src/usr/grep.c takes out of `buf`, and those it writes.
use pinky_os.Prelude.{
  ℕ, zero, suc, ◌+◌, ◌-◌, ◌<◌, ◌≡◌, refl, ap, ◌∙◌, ◌≢◌, inl, inr, true, false, Option, none, some,
  List, [], ◌∷◌, ◌++◌, append_assoc, arith, ltb, ◌==◌, if◌then◌else◌, test_of_ne, Bool-cases,
  length, set, take, length-append,
}
use pinky_os.Fs.Content.{drop}
use pinky_os.Usr.Grep.{match}

-- `strchr(p, '\n')`, as a distance from p; what lies behind `buf` is taken to be a NUL.
unfoldable pub newline_at : List ℕ → Option ℕ
newline_at [] = none
newline_at (c ∷ cs) =
    let rest = newline_at cs in
    if c == b'\n'
    then some 0
    else if c == 0
    then none
    else elim rest [ none ↦ none | some k ↦ some (suc k) ]

-- What the inner loop leaves: the lines that were written, `buf`, and p - buf.
pub record Scanned : Type 0 where
  pub out : List (List ℕ)
  pub buf : List ℕ
  pub p : ℕ

-- The inner loop in n rounds at most. A line that does not match keeps the NUL at its end.
unfoldable pub scan_lines : (re buf : List ℕ) → (p n : ℕ) → Scanned
scan_lines re buf p zero = record { out = []; buf = buf; p = p }
scan_lines re buf p (suc n) = elim (newline_at (drop p buf)) [
  | none ↦ record { out = []; buf = buf; p = p }
  | some k ↦
      let line = take k (drop p buf) in
      let kept = scan_lines re buf (p + suc k) n in
      let ended = scan_lines re (set buf (p + k) 0) (p + suc k) n in
      if match re line then record kept { out = (line ++ b'\n' ∷ []) ∷ kept.out } else ended
]

-- A read into `buf` from m on.
abbrev pub read_at : (buf : List ℕ) → (m : ℕ) → (chunk : List ℕ) → List ℕ
read_at buf m chunk = take m buf ++ (chunk ++ drop (m + length chunk) buf)

-- `memmove(buf, p, m)`
abbrev pub move_down : (buf : List ℕ) → (p m : ℕ) → List ℕ
move_down buf p m = take m (drop p buf) ++ drop m buf

abbrev pub written : List (List ℕ) → Option (List (List ℕ)) → Option (List (List ℕ))
written out none = none
written out (some rest) = some (out ++ rest)

-- `grep` with what each read gives, at most sizeof(buf) - m bytes: the lines written, or none when m
-- falls below 0, where the next read would write in front of `buf`.
unfoldable pub grep :
    (re : List ℕ) → (chunks : List (List ℕ)) → (buf : List ℕ) → (m : ℕ) → Option (List (List ℕ))
unfolding scan_lines
grep re [] buf m = some []
grep re (chunk ∷ chunks) buf m =
    let s = scan_lines re (read_at buf m chunk) 0 1025 in
    let n = m + length chunk in
    let fresh = grep re chunks s.buf 0 in
    let moved = grep re chunks (move_down s.buf s.p (n - s.p)) (n - s.p) in
    if length chunk == 0
    then some []
    else if s.p == 0
    then written s.out fresh
    else if ltb n s.p
    then none
    else written s.out moved

-- Lines as they lie in `buf`.
abbrev pub joined : List (List ℕ) → List ℕ
joined [] = []
joined (line ∷ lines) = line ++ b'\n' ∷ joined lines

-- Characters of one line.
abbrev pub IsLine : List ℕ → Type 0
IsLine [] = Unit {0}
IsLine (c ∷ cs) = ((c ≢ b'\n') × (c ≢ 0)) × IsLine cs

abbrev pub AllLines : List (List ℕ) → Type 0
AllLines [] = Unit {0}
AllLines (line ∷ lines) = IsLine line × AllLines lines

-- The lines that match, each with its newline.
abbrev pub matching : (re : List ℕ) → List (List ℕ) → List (List ℕ)
matching re [] = []
matching re (line ∷ lines) =
    let rest = matching re lines in if match re line then (line ++ b'\n' ∷ []) ∷ rest else rest

newline_at-line :
    (line more : List ℕ) → IsLine line → newline_at (line ++ b'\n' ∷ more) ≡ some (length line)
unfolding newline_at
newline_at-line [] more h = refl
newline_at-line (c ∷ cs) more h =
    rw (test_of_ne c b'\n' h.0.0, test_of_ne c 0 h.0.1, newline_at-line cs more h.1)

take_line : (line more : List ℕ) → take (length line) (line ++ more) ≡ line
take_line [] more = refl
take_line (c ∷ cs) more = ap (λ (xs : List ℕ). c ∷ xs) (take_line cs more)

drop_line : (line more : List ℕ) → drop (suc (length line)) (line ++ b'\n' ∷ more) ≡ more
drop_line [] more = refl
drop_line (c ∷ cs) more = drop_line cs more

drop_nil : (k : ℕ) → [] ≡ drop k []
drop_nil zero = refl
drop_nil (suc k) = refl

drop_again : (p k : ℕ) (xs : List ℕ) → drop (p + k) xs ≡ drop k (drop p xs)
drop_again zero k xs = ap (λ (n : ℕ). drop n xs) {x = 0 + k} {y = k} (omega arith)
drop_again (suc p) k [] =
    ap (λ (n : ℕ). drop n []) {x = suc p + k} {y = suc (p + k)} (omega arith) ∙ drop_nil k
drop_again (suc p) k (x ∷ xs) =
    ap (λ (n : ℕ). drop n (x ∷ xs)) {x = suc p + k} {y = suc (p + k)} (omega arith)
    ∙ drop_again p k xs

drop-set : (i v : ℕ) (xs : List ℕ) → drop (suc i) (set xs i v) ≡ drop (suc i) xs
drop-set zero v [] = refl
drop-set (suc i) v [] = refl
drop-set zero v (x ∷ xs) = refl
drop-set (suc i) v (x ∷ xs) = drop-set i v xs

abbrev after : (out : List (List ℕ)) → Scanned → Scanned
after out s = record s { out = out ++ s.out }

scan-none :
    (re buf : List ℕ) (p n : ℕ)
    → newline_at (drop p buf) ≡ none
    → scan_lines re buf p (suc n) ≡ record { out = []; buf = buf; p = p }
unfolding scan_lines
scan-none re buf p n h = rw (scan_lines, h)

scan-match :
    (re buf line : List ℕ) (p n : ℕ)
    → newline_at (drop p buf) ≡ some (length line)
    → take (length line) (drop p buf) ≡ line
    → match re line ≡ true
    → scan_lines re buf p (suc n)
      ≡ after ((line ++ b'\n' ∷ []) ∷ []) (scan_lines re buf (p + suc (length line)) n)
unfolding scan_lines
scan-match re buf line p n h t e = rw (scan_lines, h, t, e)

scan-other :
    (re buf line : List ℕ) (p n : ℕ)
    → newline_at (drop p buf) ≡ some (length line)
    → take (length line) (drop p buf) ≡ line
    → match re line ≡ false
    → scan_lines re buf p (suc n)
      ≡ scan_lines re (set buf (p + length line) 0) (p + suc (length line)) n
unfolding scan_lines
scan-other re buf line p n h t e = rw (scan_lines, h, t, e)

-- On a buffer that holds, from p on, lines without NULs, each with its newline, and behind them a rest with
-- no newline before its first NUL: with more rounds than there are lines, the inner loop of grep writes the
-- lines that match, in order, each with its newline, and leaves p behind the last line.
pub scan_lines_lem :
    (lines : List (List ℕ)) (re buf rest : List ℕ) (p n : ℕ)
    → AllLines lines
    → drop p buf ≡ joined lines ++ rest
    → newline_at rest ≡ none
    → length lines < n
    → ((scan_lines re buf p n).out ≡ matching re lines)
      × ((scan_lines re buf p n).p ≡ p + length (joined lines))
scan_lines_lem lines re buf rest p zero all at end h = absurd (omega arith)
scan_lines_lem [] re buf rest p (suc n) all at end h =
    let stop = scan-none re buf p n (ap newline_at at ∙ end) in
    (ap Scanned.out stop, ap Scanned.p stop ∙ omega arith)
scan_lines_lem (line ∷ lines) re buf rest p (suc n) all at end h =
    let more = joined lines ++ rest in
    let whole : drop p buf ≡ line ++ b'\n' ∷ more =
      at ∙ append_assoc line (b'\n' ∷ joined lines) rest in
    let found : newline_at (drop p buf) ≡ some (length line) =
      ap newline_at whole ∙ newline_at-line line more all.0 in
    let text : take (length line) (drop p buf) ≡ line =
      ap (take (length line)) whole ∙ take_line line (b'\n' ∷ more) in
    let next : drop (p + suc (length line)) buf ≡ more =
      drop_again p (suc (length line)) buf
      ∙ ap (drop (suc (length line))) whole
      ∙ drop_line line more in
    let next' : drop (p + suc (length line)) (set buf (p + length line) 0) ≡ more =
      ap (λ (k : ℕ). drop k (set buf (p + length line) 0)) {x = p + suc (length line)}
        {y = suc (p + length line)} (omega arith)
      ∙ drop-set (p + length line) 0 buf
      ∙ ap (λ (k : ℕ). drop k buf) {x = suc (p + length line)} {y = p + suc (length line)}
          (omega arith)
      ∙ next in
    let kept =
      scan_lines_lem lines re buf rest (p + suc (length line)) n all.1 next end (omega arith) in
    let ended =
      scan_lines_lem lines re (set buf (p + length line) 0) rest (p + suc (length line)) n all.1
        next' end (omega arith) in
    let count = length-append line (b'\n' ∷ joined lines) in
    elim (Bool-cases (match re line)) [
      | inl e ↦
          let one = scan-match re buf line p n found text e in
          (
            ap Scanned.out one
                ∙ ap (λ (xs : List (List ℕ)). (line ++ b'\n' ∷ []) ∷ xs) kept.0
                ∙ rw e,
            ap Scanned.p one ∙ kept.1 ∙ omega arith,
          )
      | inr e ↦
          let one = scan-other re buf line p n found text e in
          (ap Scanned.out one ∙ ended.0 ∙ rw e, ap Scanned.p one ∙ ended.1 ∙ omega arith)
    ]
