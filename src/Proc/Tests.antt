-- ===== src/Proc/Tests.antt =====
-- Runs of src/proc.c, and its theorems at concrete tables.
use pinky_os.Prelude.{ℕ, zero, suc, ◌≡◌, refl, true, false, none, some, [], arith}
use pinky_os.Outcome.{ok, ◌>>=◌}
use pinky_os.Lock.{release, init_lock, acquire, Cpu}
use pinky_os.Proc.{
  unused, sleeping, running, zombie, proc_at, Proc, Table, scan, allocproc, fork, exit, wait,
  reaped, kill, sched,
}
use pinky_os.Proc.Families.{NoMissedChild}
use pinky_os.Proc.Exit.{CanExit, Exited, exit_lem, WaitedFor, wait_lem}
use pinky_os.Proc.History.{here, next, await, slay, Reach-NoMissedChild}
use pinky_os.Proc.Kill.{kill_free_slot, sched_lem}

abbrev blank : Proc
blank = record {
  state = unused;
  pid = 0;
  parent = none;
  chan = none;
  killed = false;
  kstack = none;
  pgdir = none;
  sz = 0;
  r0 = 0;
  regs = [];
  ofile = [];
  cwd = 0;
  name = [];
}

-- init in slot 0 sleeps in `wait`, and its child in slot 1 runs.
abbrev procs : ℕ → Proc
procs zero = record blank { state = sleeping; pid = 1; chan = some (proc_at 0) }
procs (suc zero) = record blank { state = running; pid = 2; parent = some 0 }
procs (suc (suc i)) = blank

abbrev family : Table
family = record { proc = procs; nextpid = 3; initproc = 0 }

-- The child is a zombie, and init runs again.
abbrev procs_after : ℕ → Proc
procs_after zero = record blank { state = running; pid = 1 }
procs_after (suc zero) = record blank { state = zombie; pid = 2; parent = some 0 }
procs_after (suc (suc i)) = blank

abbrev bereft : Table
bereft = record { proc = procs_after; nextpid = 3; initproc = 0 }

wait_reaps : (wait bereft 0).0 ≡ reaped 2
unfolding wait scan
wait_reaps = refl

fork_pid : (fork bereft 0 (some 7) (some 8)).0 ≡ some 3
unfolding fork scan
fork_pid = refl

family-NoMissedChild : NoMissedChild family
family-NoMissedChild p zero hp hc w k = refl
family-NoMissedChild p (suc zero) hp hc w k = refl
family-NoMissedChild p (suc (suc c)) hp hc w k = refl

bereft-NoMissedChild : NoMissedChild bereft
bereft-NoMissedChild zero c hp hc w k = cc
bereft-NoMissedChild (suc zero) c hp hc w k = cc
bereft-NoMissedChild (suc (suc p)) c hp hc w k = cc

child-CanExit : CanExit family 1
child-CanExit = record { not_init = omega arith; init_slot = omega arith; not_own_parent = refl }

exit_lem_example : (u : Table) × (exit family 1 ≡ ok u) × Exited family 1 u
exit_lem_example = exit_lem family 1 child-CanExit family-NoMissedChild

wait_lem_example : WaitedFor bereft 0 (wait bereft 0)
wait_lem_example = wait_lem bereft 0

Reach-NoMissedChild_example : NoMissedChild (kill (wait bereft 0).1 9).1
Reach-NoMissedChild_example =
    Reach-NoMissedChild bereft-NoMissedChild (next (next here (await bereft 0)) (slay _ 9))

-- `kill(0)` with slot 2 free.
kill_free_slot_example :
    let (found, u) = kill bereft 0 in
    let (slot, w) = allocproc u (some 7) in
    (found ≡ true) × (slot ≡ some 2) × ((w.proc 2).killed ≡ true)
unfolding scan
kill_free_slot_example = kill_free_slot bereft 2 7 refl refl

-- A CPU outside of all locks, and as it may be when the process is run again.
abbrev before : Cpu
before = record { id = 0; ncli = 0; intena = false; enabled = true }

abbrev again : Cpu
again = record { id = 0; ncli = 1; intena = false; enabled = false }

sched_lem_example :
    (acquire before init_lock >>= λ (c', lk'). sched c' lk' zombie again >>= λ c''. release c'' lk')
    ≡ ok (record again { ncli = 0; intena = true; enabled = true }, init_lock)
sched_lem_example =
    sched_lem before again init_lock zombie refl refl (λ e. ground (arith, e)) refl refl refl
