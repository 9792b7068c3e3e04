-- ===== src/Proc/Scan.antt =====
-- The searches through `ptable.proc` of src/proc.c.
use pinky_os.Prelude.{ℕ, zero, suc, ◌+◌, ◌≤◌, ◌<◌, ◌≡◌, ap, Bool, true, false, none, some, arith}
use pinky_os.Proc.{Proc, scan}

pub scan-none :
    (test : Proc → Bool) (proc : ℕ → Proc) (i n j : ℕ)
    → scan test proc i n ≡ none
    → i ≤ j
    → j < i + n
    → test (proc j) ≡ false
unfolding scan
scan-none test proc i zero j e a b = absurd (omega arith)
scan-none test proc i (suc n) j e a b =
    ground (arith, scan-none test proc (i + 1) n j, ap (λ (k : ℕ). test (proc k)) {x = i} {y = j})

pub scan-some :
    (test : Proc → Bool) (proc : ℕ → Proc) (i n j : ℕ)
    → scan test proc i n ≡ some j
    → (i ≤ j) × (j < i + n) × (test (proc j) ≡ true)
unfolding scan
scan-some test proc i zero j e = cc
scan-some test proc i (suc n) j e = ground (arith, scan-some test proc (i + 1) n j)
