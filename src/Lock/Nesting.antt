-- ===== src/Lock/Nesting.antt =====
-- Nested `pushcli` and `popcli` calls of src/arm.c, and `acquire` with `release` around them.
use pinky_os.Prelude.{◌≡◌, refl, ◌≢◌, true, false, arith, ◌==◌, if◌then◌else◌, some, none}
use pinky_os.Outcome.{Outcome, ok, ◌>>=◌}
use pinky_os.Lock.{Cpu, SpinLock, pushcli, popcli, acquire, release}

-- Code that calls `pushcli` and `popcli` in matched pairs: nothing, or a pair round some such code,
-- and more of it behind.
pub data Nest : Type 0 where
  done : Nest
  section : Nest → Nest → Nest

pub run : Nest → Cpu → Outcome Cpu
run done c = ok c
run (section inner after) c = run inner (pushcli c) >>= λ c'. popcli c' >>= λ c''. run after c''

-- Inside a section interrupts are off.
abbrev pub Masked : Cpu → Type 0
Masked c = c.ncli ≢ 0 → c.enabled ≡ false

-- What matched pairs leave: at the outermost level `intena` may have been set anew.
abbrev pub restored : Nest → Cpu → Cpu
restored done c = c
restored (section inner after) c = record c { intena = if c.ncli == 0 then c.enabled else c.intena }

restored_again :
    (n : Nest) (c : Cpu)
    → restored n (restored (section done done) c) ≡ restored (section done done) c
restored_again done c = refl
restored_again (section i a) c = ground arith

popcli-pushcli :
    (n : Nest) (c : Cpu)
    → Masked c
    → popcli (restored n (pushcli c)) ≡ ok (restored (section done done) c)
unfolding popcli pushcli
popcli-pushcli done c m = ground arith
popcli-pushcli (section i a) c m = ground arith

-- On a CPU whose interrupts are off when the nesting depth is not 0, matched `pushcli` and `popcli`
-- calls never panic, and leave the nesting depth and the interrupt mask as they found them.
pub run_restores : (n : Nest) (c : Cpu) → Masked c → run n c ≡ ok (restored n c)
unfolding run
run_restores done c m = refl
run_restores (section inner after) c m = rw (
  run_restores inner (pushcli c) (unfold pushcli in λ e. refl),
  popcli-pushcli inner c m,
  run_restores after (restored (section done done) c) m,
  restored_again after c,
)

acquire-free :
    (c : Cpu) (lk : SpinLock)
    → lk.locked ≡ false
    → acquire c lk ≡ ok (pushcli c, record { locked = true; cpu = some c.id })
unfolding acquire
acquire-free c lk free = rw free

release-restored :
    (n : Nest) (c : Cpu)
    → Masked c
    → release (restored n (pushcli c)) (record { locked = true; cpu = some c.id })
      ≡ ok (restored (section done done) c, record { locked = false; cpu = none })
unfolding release pushcli
release-restored done c m = ground (arith, popcli-pushcli done c m)
release-restored (section i a) c m = ground (arith, popcli-pushcli (section i a) c m)

-- On a CPU whose interrupts are off when the nesting depth is not 0: a lock that is free and taken with `acquire`, with any matched pairs before its
-- `release`: the release does not panic, frees the lock and restores the interrupt state.
pub release-acquire :
    (n : Nest) (c : Cpu) (lk : SpinLock)
    → Masked c
    → lk.locked ≡ false
    → (acquire c lk >>= λ (c', lk'). run n c' >>= λ c''. release c'' lk')
      ≡ ok (restored (section n done) c, record { locked = false; cpu = none })
release-acquire n c lk m free =
    rw (acquire-free c lk free, run_restores n (pushcli c) (unfold pushcli in λ e. refl))
      (release-restored n c m)
