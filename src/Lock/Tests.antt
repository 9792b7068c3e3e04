-- ===== src/Lock/Tests.antt =====
-- Runs of src/arm.c and src/spinlock.c, and their theorems at concrete CPUs.
use pinky_os.Lock.Smp
use pinky_os.Lock.Smp.{inside, panicked, step, boot}
use pinky_os.Lock.Nesting.{Nest, done, section, run, run_restores, release-acquire}
use pinky_os.Lock.Exclusion.{starts, steps, exclusion}
use pinky_os.Lock.{Cpu, acquire, release, init_lock}
use pinky_os.Outcome.{ok, panic, ◌>>=◌}
use pinky_os.Prelude.{List, ℕ, ◌≡◌, refl, ◌≢◌, false, true, some, [], ◌∷◌}

abbrev idle : Cpu
idle = record { id = 0; ncli = 0; intena = false; enabled = true }

abbrev nested : Nest
nested = section (section done done) (section done done)

release_by_other :
    release (record idle { id = 1 }) (record { locked = true; cpu = some 0 }) ≡ panic "release"
unfolding release
release_by_other = refl

run_restores_example : run nested idle ≡ ok (record idle { intena = true })
run_restores_example = run_restores nested idle (λ h. absurd (h refl))

release-acquire_example :
    (acquire idle init_lock >>= λ (c', lk'). run nested c' >>= λ c''. release c'' lk')
    ≡ ok (record idle { intena = true }, init_lock)
release-acquire_example = release-acquire nested idle init_lock (λ h. absurd (h refl)) refl

abbrev taken : List ℕ
taken = 0 ∷ 1 ∷ 0 ∷ 1 ∷ 0 ∷ 1 ∷ []

exclusion_example :
    let w = Smp.run (boot 1 ∷ step 0 ∷ step 0 ∷ step 1 ∷ step 0 ∷ []) Smp.start in
    ((w.phase 0 ≡ inside) × (w.phase 1 ≡ inside) → ◌≡◌ {A = ℕ} 0 1)
    × ((Smp.run (steps taken) (Smp.run (starts (0 ∷ 1 ∷ [])) Smp.start)).phase 0 ≢ panicked)
exclusion_example =
    exclusion (boot 1 ∷ step 0 ∷ step 0 ∷ step 1 ∷ step 0 ∷ []) (0 ∷ 1 ∷ []) taken 0 1

-- A CPU that starts while another holds the lock makes that one panic in `release`.
late_start_panics :
    (Smp.run (step 0 ∷ step 0 ∷ step 0 ∷ boot 1 ∷ step 0 ∷ []) Smp.start).phase 0 ≡ panicked
unfolding Smp.run Smp.access
late_start_panics = refl
