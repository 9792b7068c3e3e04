-- ===== src/Lock.antt =====
-- Interrupt nesting (`pushcli`, `popcli` of src/arm.c) and the spin locks of src/spinlock.c, as one
-- CPU runs them. `Lock.Smp` has several CPUs, one atomic access at a time.
pub mod Nesting
pub mod Smp
pub mod Exclusion
mod Tests
use Prim.Native.String.{String}
use pinky_os.Prelude.{
  ℕ, ◌+◌, ◌-◌, Bool, true, false, not, ◌&&◌, Option, none, some, ◌==◌, if◌then◌else◌,
}
use pinky_os.Outcome.{Outcome, ok, panic, waits, ◌>>=◌}

-- The fields of `struct cpu` that nesting uses, and whether the CPU takes interrupts (DAIF).
pub record Cpu : Type 0 where
  pub id : ℕ
  pub ncli : ℕ
  pub intena : Bool
  pub enabled : Bool

-- `struct spinlock` without its name.
pub record SpinLock : Type 0 where
  pub locked : Bool
  pub cpu : Option ℕ

abbrev pub init_lock : SpinLock
init_lock = record { locked = false; cpu = none }

unfoldable pub pushcli : Cpu → Cpu
pushcli c = record c {
  enabled = false;
  ncli = c.ncli + 1;
  intena = if c.ncli == 0 then c.enabled else c.intena;
}

unfoldable pub popcli : Cpu → Outcome Cpu
popcli c =
    if c.enabled
    then panic "popcli - interruptible"
    else if c.ncli == 0
    then panic "popcli -- ncli < 0"
    else ok (record c { ncli = c.ncli - 1; enabled = c.ncli - 1 == 0 && c.intena })

abbrev pub is_cpu : Option ℕ → ℕ → Bool
is_cpu none i = false
is_cpu (some j) i = j == i

-- Whether this CPU holds the lock.
abbrev pub holding : Cpu → SpinLock → Bool
holding c lk = lk.locked && is_cpu lk.cpu c.id

-- With the lock taken the CPU spins, its interrupts off.
unfoldable pub acquire : Cpu → SpinLock → Outcome (Cpu × SpinLock)
unfolding pushcli
acquire c lk =
    if lk.locked then waits else ok (pushcli c, record { locked = true; cpu = some c.id })

unfoldable pub release : Cpu → SpinLock → Outcome (Cpu × SpinLock)
unfolding popcli
release c lk =
    if holding c lk
    then (popcli c >>= λ c'. ok (c', record { locked = false; cpu = none }))
    else panic "release"
