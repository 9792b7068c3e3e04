-- ===== src/Proc/Kill.antt =====
-- `kill` and `sched` of src/proc.c, and what `kill` of pid 0 does to the next process.
use pinky_os.Prelude.{
  ℕ, zero, suc, ◌+◌, ◌<◌, ◌≡◌, refl, sym, ap, ◌∙◌, ◌≢◌, inl, inr, Bool, true, false, none, some,
  arith, ◌==◌, if◌then◌else◌, eq_of_test, eq_self, Option-cases,
}
use mathlib.Core.Path.{subst}
use pinky_os.Outcome.{ok, ◌>>=◌}
use pinky_os.Lock.{popcli, pushcli, release, acquire, Cpu, SpinLock}
use pinky_os.Proc.{
  nproc, State, runnable, running, Proc, Table, put, scan, is_unused, is_sleeping, allocproc, kill,
  is_running, sched,
}
use pinky_os.Proc.Scan.{scan-none, scan-some}

-- What `kill` answers: with 0, one process with the pid is marked and does not sleep, and no other
-- slot changes; with -1 there is no such process and nothing changes.
abbrev pub Killed : Table → ℕ → Bool × Table → Type 0
Killed t pid (true, u) =
    (i : ℕ) × (i < nproc)
    × ((t.proc i).pid ≡ pid)
    × ((u.proc i).killed ≡ true)
    × (is_sleeping (u.proc i).state ≡ false)
    × ((j : ℕ) → j ≢ i → u.proc j ≡ t.proc j)
Killed t pid (false, u) = (u ≡ t) × ((i : ℕ) → i < nproc → (t.proc i).pid ≢ pid)

abbrev has_pid : ℕ → Proc → Bool
has_pid pid p = p.pid == pid

abbrev marked : Proc → Proc
marked p = record p { killed = true; state = if is_sleeping p.state then runnable else p.state }

kill-none :
    (t : Table) (pid : ℕ) → scan (has_pid pid) t.proc 0 nproc ≡ none → kill t pid ≡ (false, t)
unfolding kill
kill-none t pid e = ground arith

kill-some :
    (t : Table) (pid i : ℕ)
    → scan (has_pid pid) t.proc 0 nproc ≡ some i
    → kill t pid ≡ (true, put t i (marked (t.proc i)))
unfolding kill
kill-some t pid i e = ground arith

-- `kill` marks and wakes a process with the pid, if there is one, and says whether there is.
pub kill_lem : (t : Table) (pid : ℕ) → Killed t pid (kill t pid)
kill_lem t pid = elim (Option-cases (scan (has_pid pid) t.proc 0 nproc)) [
  | inl e ↦
      subst (Killed t pid) (sym (kill-none t pid e))
        (refl, λ i h same. ground (arith, scan-none (has_pid pid) t.proc 0 nproc i e))
  | inr (i, e) ↦
      let f = scan-some (has_pid pid) t.proc 0 nproc i e in
      subst (Killed t pid) (sym (kill-some t pid i e)) (
        i,
        f.1,
        eq_of_test (t.proc i).pid pid f.2,
        rw (eq_self i),
        rw (eq_self i) (ground arith),
        λ j ne. ground arith,
      )
]

scan_cong :
    (test : Proc → Bool) (f g : ℕ → Proc) (i n : ℕ)
    → ((j : ℕ) → test (f j) ≡ test (g j))
    → scan test f i n ≡ scan test g i n
unfolding scan
scan_cong test f g i zero h = refl
scan_cong test f g i (suc n) h = rw (h i, scan_cong test f g (i + 1) n h) (ground arith)

alloc-some :
    (t : Table) (i k : ℕ)
    → scan is_unused t.proc 0 nproc ≡ some i
    → ((allocproc t (some k)).0 ≡ some i)
      × (((allocproc t (some k)).1.proc i).killed ≡ (t.proc i).killed)
unfolding allocproc
alloc-some t i k e = rw (e, allocproc) (refl, rw (eq_self i))

-- Where the first slot with pid 0 is the first unused one, `kill` of pid 0 answers 0 and marks that
-- slot, and the next process that `allocproc` sets up is killed from its start.
pub kill_free_slot :
    (t : Table) (i k : ℕ)
    → scan is_unused t.proc 0 nproc ≡ some i
    → scan (has_pid 0) t.proc 0 nproc ≡ some i
    → let (found, u) = kill t 0 in
      let (slot, w) = allocproc u (some k) in
      (found ≡ true) × (slot ≡ some i) × ((w.proc i).killed ≡ true)
kill_free_slot t i k e z =
    let u = put t i (marked (t.proc i)) in
    let same : scan is_unused u.proc 0 nproc ≡ some i =
      scan_cong is_unused u.proc t.proc 0 nproc
        (λ j. ground (arith, ap (λ (n : ℕ). t.proc n) {x = j} {y = i}))
      ∙ e in
    let a = alloc-some u i k same in rw (kill-some t 0 i z) (refl, a.0, a.1 ∙ rw (eq_self i))

not_running : (s : State) → s ≢ running → is_running s ≡ false
not_running s left = ground arith

-- A process that a CPU runs, with interrupts on or off but no lock held, takes a free `ptable.lock`,
-- has left the running state, and calls `sched`. While it is away other code runs on the CPU, and the CPU
-- that runs it again is `back`, with that lock held, interrupts off, and any `intena`. Then `sched`
-- does not panic, and the release of the lock turns interrupts on again exactly if they were on before.
pub sched_lem :
    (c back : Cpu) (lk : SpinLock) (s : State)
    → c.ncli ≡ 0
    → lk.locked ≡ false
    → s ≢ running
    → back.id ≡ c.id
    → back.ncli ≡ 1
    → back.enabled ≡ false
    → (acquire c lk >>= λ (c', lk'). sched c' lk' s back >>= λ c''. release c'' lk')
      ≡ ok (
        record back { ncli = 0; intena = c.enabled; enabled = c.enabled },
        record { locked = false; cpu = none },
      )
unfolding sched acquire release pushcli popcli
sched_lem c back lk s depth free left same one off =
    let away : is_running s ≡ false = not_running s left in
    rw (free, depth, eq_self c.id, away, same, eq_self c.id, one, off)
