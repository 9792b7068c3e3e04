-- ===== src/Lock/Smp.antt =====
-- Several CPUs at one lock of src/spinlock.c, one atomic access at a time: each CPU is inside
-- `acquire`, between `acquire` and `release`, or inside `release`. The variable `cpu` of src/main.c, by
-- which `acquire` records the holder and `release` tests it, is one variable that all CPUs share; kmain
-- sets it on each CPU that starts. The nesting of interrupt masks is in Lock.
use pinky_os.Prelude.{ℕ, true, false, none, some, List, [], ◌∷◌, ◌==◌, if◌then◌else◌, ◌&&◌}
use pinky_os.Lock.{SpinLock, init_lock, is_cpu}

-- Where a CPU is: it has not called `acquire`, spins in its loop, is about to record itself as the
-- holder, is between the calls, has cleared the holder in `release`, or has panicked there.
pub data Phase : Type 0 where
  outside spinning marking inside clearing panicked : Phase

-- `cpu` names the CPU that the shared variable points to.
pub record World : Type 0 where
  pub cpu : ℕ
  pub lock : SpinLock
  pub phase : ℕ → Phase

abbrev pub start : World
start = record { cpu = 0; lock = init_lock; phase = λ i. outside }

abbrev pub move_to : World → ℕ → Phase → SpinLock → World
move_to w i p lk = record { cpu = w.cpu; lock = lk; phase = λ j. if j == i then p else w.phase j }

-- The next access of CPU i.
unfoldable pub access : Phase → ℕ → World → World
access outside i w = move_to w i spinning w.lock
access spinning i w =
    if w.lock.locked then w else move_to w i marking (record w.lock { locked = true })
access marking i w = move_to w i inside (record w.lock { cpu = some w.cpu })
access inside i w =
    if w.lock.locked && is_cpu w.lock.cpu w.cpu
    then move_to w i clearing (record w.lock { cpu = none })
    else move_to w i panicked w.lock
access clearing i w = move_to w i outside (record w.lock { locked = false })
access panicked i w = w

-- What a CPU does next: an access at the lock, or the assignment of `cpu` in kmain.
pub data Move : Type 0 where
  step : ℕ → Move
  boot : ℕ → Move

abbrev pub moved : Move → World → World
moved (step i) w = access (w.phase i) i w
moved (boot i) w = record w { cpu = i }

-- The moves of a schedule, one after another.
unfoldable pub run : List Move → World → World
unfolding access
run [] w = w
run (x ∷ xs) w = run xs (moved x w)
