-- ===== src/Usr/Grep/Tests.antt =====
-- Runs of the matcher of src/usr/grep.c.
use pinky_os.Prelude.{
  ℕ, ◌+◌, ◌≡◌, refl, ◌↔◌, true, false, none, some, List, [], ◌∷◌, arith, length, replicate,
}
use pinky_os.Usr.Grep.{match, matchhere, matchstar, search_text}
use pinky_os.Usr.Grep.Meaning.{Means}
use pinky_os.Usr.Grep.Lines.{newline_at, scan_lines, grep, matching, joined, scan_lines_lem}
use pinky_os.Usr.Grep.Match.{match_iff}

-- `^a.*c$` and `abbc`
match_whole :
    match (b'^' ∷ b'a' ∷ b'.' ∷ b'*' ∷ b'c' ∷ b'$' ∷ []) (b'a' ∷ b'b' ∷ b'b' ∷ b'c' ∷ []) ≡ true
unfolding match matchhere matchstar search_text
match_whole = refl

match_not_whole : match (b'b' ∷ b'$' ∷ []) (b'a' ∷ b'b' ∷ b'c' ∷ []) ≡ false
unfolding match matchhere matchstar search_text
match_not_whole = refl

-- `b*c` in `abbc`
match_iff_example :
    (match (b'b' ∷ b'*' ∷ b'c' ∷ []) (b'a' ∷ b'b' ∷ b'b' ∷ b'c' ∷ []) ≡ true)
    ↔ Means (b'b' ∷ b'*' ∷ b'c' ∷ []) (b'a' ∷ b'b' ∷ b'b' ∷ b'c' ∷ [])
match_iff_example = match_iff (b'b' ∷ b'*' ∷ b'c' ∷ []) (b'a' ∷ b'b' ∷ b'b' ∷ b'c' ∷ [])

abbrev two_lines : List (List ℕ)
two_lines = (b'a' ∷ b'b' ∷ []) ∷ ((b'c' ∷ []) ∷ [])

no_newline : newline_at (b'd' ∷ []) ≡ none
unfolding newline_at
no_newline = refl

scan_lines_lem_example :
    ((scan_lines (b'c' ∷ []) (b'a' ∷ b'b' ∷ b'\n' ∷ b'c' ∷ b'\n' ∷ b'd' ∷ []) 0 3).out
      ≡ matching (b'c' ∷ []) two_lines)
    × ((scan_lines (b'c' ∷ []) (b'a' ∷ b'b' ∷ b'\n' ∷ b'c' ∷ b'\n' ∷ b'd' ∷ []) 0 3).p
        ≡ 0 + length (joined two_lines))
scan_lines_lem_example =
    scan_lines_lem two_lines (b'c' ∷ []) (b'a' ∷ b'b' ∷ b'\n' ∷ b'c' ∷ b'\n' ∷ b'd' ∷ [])
      (b'd' ∷ []) 0 3
      (
        ((ground arith, ground arith), ((ground arith, ground arith), tt)),
        (((ground arith, ground arith), tt), tt),
      )
      refl no_newline (omega arith)

-- A read of less than a line is lost when the rest of the line comes with the next read.
grep_loses_start :
    grep [] ((b'a' ∷ b'b' ∷ []) ∷ ((b'c' ∷ b'\n' ∷ []) ∷ [])) (replicate 1024 0) 0
    ≡ some ((b'c' ∷ b'\n' ∷ []) ∷ [])
unfolding grep scan_lines newline_at match matchhere search_text
grep_loses_start = refl

-- A shorter read leaves bytes of the one before behind it, which are taken for lines, and m falls below 0.
grep_underflows :
    grep [] ((b'a' ∷ b'\n' ∷ b'b' ∷ b'\n' ∷ []) ∷ ((b'c' ∷ b'\n' ∷ []) ∷ [])) (replicate 1024 0) 0
    ≡ none
unfolding grep scan_lines newline_at match matchhere search_text
grep_underflows = refl
