-- ===== src/Syscall/Tests.antt =====
-- The argument checks of src/syscall.c and src/sysfile.c, run, and the theorems about them applied.
use pinky_os.Prelude.{ℕ, ◌≡◌, some, [], ◌∷◌, arith, get_or}
use pinky_os.Outcome.{ok}
use pinky_os.Syscall.{argptr, fetchstr}
use pinky_os.Syscall.Arguments.{argptr_lem, fetchstr_lem, EndsAt}

argptr_lem_example : argptr (0 ∷ 100 ∷ 28 ∷ 0 ∷ []) 128 1 28 ≡ ok (some 100)
argptr_lem_example =
    argptr_lem (0 ∷ 100 ∷ 28 ∷ 0 ∷ []) 128 1 28 (omega arith) (omega arith) (omega arith)

-- The text "hi" at address 3.
abbrev memory : ℕ → ℕ
memory a = get_or (1 ∷ 1 ∷ 1 ∷ 104 ∷ 105 ∷ 0 ∷ []) a 1

fetchstr_lem_example : EndsAt memory 3 5 (fetchstr memory 8 3)
fetchstr_lem_example = fetchstr_lem memory 8 3
