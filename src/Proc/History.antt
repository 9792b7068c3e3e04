-- ===== src/Proc/History.antt =====
-- Every history of the process table of src/proc.c, as its operations follow one another.
use pinky_os.Prelude.{
  ℕ, ◌<◌, ◌≡◌, refl, sym, ap, ◌∙◌, ◌≢◌, true, false, ◌&&◌, Option, none, some, arith, ◌==◌,
  eq_of_test,
}
use mathlib.Core.Path.{subst}
use pinky_os.Outcome.{ok}
use pinky_os.Proc.{
  nproc, unused, embryo, running, Chan, proc_at, address, sleeps_on, Proc, Table, put, scan,
  is_unused, is_sleeping, is_zombie, allocproc, fork_into, wakeup, exit, is_child, wait, Waited,
  reaped, childless, asleep, sleep, awake, yield, kill, schedule,
}
use pinky_os.Proc.Families.{waiting, NoMissedChild}
use pinky_os.Proc.Exit.{CanExit, exit_lem, wait_lem, WaitedFor}

-- One operation on the table. Apart from `wait`, the kernel sleeps only on addresses that are no
-- process; a process that `allocproc` set up and whose `fork` goes on is an embryo until then.
pub data Step : Table → Table → Type 0 where
  alloc : (t : Table) (stack : Option ℕ) → Step t (allocproc t stack).1
  into :
      (t : Table) (me i : ℕ) (space : Option ℕ)
      → (t.proc i).state ≡ embryo
      → Step t (fork_into t me i space).1
  leave : (t u : Table) (me : ℕ) → CanExit t me → exit t me ≡ ok u → Step t u
  await : (t : Table) (me : ℕ) → Step t (wait t me).1
  wake_all : (t : Table) (c : Chan) → Step t (wakeup t c)
  nap : (t : Table) (me a : ℕ) → (t.proc me).state ≡ running → Step t (sleep t me (address a))
  resume : (t : Table) (me : ℕ) → (t.proc me).state ≡ running → Step t (awake t me)
  give_up : (t : Table) (me : ℕ) → (t.proc me).state ≡ running → Step t (yield t me)
  slay : (t : Table) (pid : ℕ) → Step t (kill t pid).1
  switch : (t u : Table) (i : ℕ) → schedule t i ≡ some u → Step t u

pub data Reach (s : Table) : Table → Type 0 where
  here : Reach s s
  next : {t u : Table} → Reach s t → Step t u → Reach s u

ok-injective {ℓ} : {A : Type ℓ} {a b : A} → ok a ≡ ok b → a ≡ b
ok-injective e = cc

-- A change of one slot that makes no process wait nor turn into a zombie.
put-NoMissedChild :
    (t : Table) (i : ℕ) (p : Proc)
    → NoMissedChild t
    → ((is_sleeping p.state && sleeps_on p.chan (proc_at i)) ≡ true → waiting t i ≡ true)
    → (is_zombie p.state ≡ true
        → (is_zombie (t.proc i).state ≡ true) × (p.parent ≡ (t.proc i).parent))
    → NoMissedChild (put t i p)
put-NoMissedChild t i p v w z q c hq hc wq k =
    ground (arith, v q c hq hc, eq_of_test q i, eq_of_test c i)

alloc-NoMissedChild :
    (t : Table) (stack o : Option ℕ)
    → scan is_unused t.proc 0 nproc ≡ o
    → NoMissedChild t
    → NoMissedChild (allocproc t stack).1
unfolding allocproc
alloc-NoMissedChild t stack none e v = rw (e, allocproc) v
alloc-NoMissedChild t none (some i) e v =
    rw (e, allocproc) (put-NoMissedChild t i _ v (λ w. cc) (λ z. cc))
alloc-NoMissedChild t (some k) (some i) e v =
    rw (e, allocproc) (put-NoMissedChild t i _ v (λ w. cc) (λ z. cc))

fork_into-NoMissedChild :
    (t : Table) (me i : ℕ) (space : Option ℕ)
    → NoMissedChild t
    → NoMissedChild (fork_into t me i space).1
unfolding fork_into
fork_into-NoMissedChild t me i none v = put-NoMissedChild t i _ v (λ w. cc) (λ z. cc)
fork_into-NoMissedChild t me i (some d) v = put-NoMissedChild t i _ v (λ w. cc) (λ z. cc)

wakeup-NoMissedChild : (t : Table) (c : Chan) → NoMissedChild t → NoMissedChild (wakeup t c)
unfolding wakeup
wakeup-NoMissedChild t c v p k hp hk w child = ground (arith, v p k hp hk)

kill-NoMissedChild :
    (t : Table) (pid : ℕ) (o : Option ℕ)
    → scan (λ p. p.pid == pid) t.proc 0 nproc ≡ o
    → NoMissedChild t
    → NoMissedChild (kill t pid).1
unfolding kill
kill-NoMissedChild t pid none e v = rw (e, kill) v
kill-NoMissedChild t pid (some i) e v =
    rw (e, kill) (put-NoMissedChild t i _ v (λ w. ground arith) (λ z. ground arith))

schedule-put :
    (t u : Table) (i : ℕ)
    → schedule t i ≡ some u
    → u ≡ put t i (record (t.proc i) { state = running })
unfolding schedule
schedule-put t u i e = ground arith

schedule-NoMissedChild :
    (t u : Table) (i : ℕ) → schedule t i ≡ some u → NoMissedChild t → NoMissedChild u
schedule-NoMissedChild t u i e v =
    subst NoMissedChild (sym (schedule-put t u i e))
      (put-NoMissedChild t i (record (t.proc i) { state = running }) v (λ w. cc) (λ z. cc))

reap-NoMissedChild :
    (t u : Table) (c : ℕ)
    → (u.proc c).state ≡ unused
    → ((j : ℕ) → j ≢ c → u.proc j ≡ t.proc j)
    → NoMissedChild t
    → NoMissedChild u
reap-NoMissedChild t u c gone same v p k hp hk w child = ground (
  arith,
  same p,
  same k,
  v p k hp hk,
  ap (λ (j : ℕ). u.proc j) {x = p} {y = c},
  ap (λ (j : ℕ). u.proc j) {x = k} {y = c},
)

nap-NoMissedChild :
    (t : Table) (me : ℕ)
    → ((c : ℕ) → c < nproc → is_child me (t.proc c) ≡ true → is_zombie (t.proc c).state ≡ false)
    → NoMissedChild t
    → NoMissedChild (sleep t me (proc_at me))
nap-NoMissedChild t me kids v p c hp hc w child =
    ground (arith, kids c hc, v p c hp hc, eq_of_test p me, eq_of_test c me)

wait-NoMissedChild :
    (t : Table) (me : ℕ) (w : Waited × Table)
    → WaitedFor t me w
    → NoMissedChild t
    → NoMissedChild w.1
wait-NoMissedChild t me (reaped pid, u) f v = reap-NoMissedChild t u f.0 f.5 f.7 v
wait-NoMissedChild t me (childless, u) f v = subst NoMissedChild (sym f.0) v
wait-NoMissedChild t me (asleep, u) f v =
    subst NoMissedChild (sym f.1) (nap-NoMissedChild t me f.3 v)

leave-NoMissedChild :
    (t u : Table) (me : ℕ) → CanExit t me → exit t me ≡ ok u → NoMissedChild t → NoMissedChild u
leave-NoMissedChild t u me h e v =
    let (w, e', x) = exit_lem t me h v in subst NoMissedChild (ok-injective (sym e' ∙ e)) x.families

Step-NoMissedChild : {t u : Table} → Step t u → NoMissedChild t → NoMissedChild u
Step-NoMissedChild (alloc t stack) v = alloc-NoMissedChild t stack _ refl v
Step-NoMissedChild (into t me i space e) v = fork_into-NoMissedChild t me i space v
Step-NoMissedChild (leave t u me h e) v = leave-NoMissedChild t u me h e v
Step-NoMissedChild (await t me) v = wait-NoMissedChild t me (wait t me) (wait_lem t me) v
Step-NoMissedChild (wake_all t c) v = wakeup-NoMissedChild t c v
Step-NoMissedChild (nap t me a r) v = put-NoMissedChild t me _ v (λ w. cc) (λ z. cc)
Step-NoMissedChild (resume t me r) v =
    put-NoMissedChild t me _ v (λ w. ground arith) (λ z. (z, refl))
Step-NoMissedChild (give_up t me r) v = put-NoMissedChild t me _ v (λ w. cc) (λ z. cc)
Step-NoMissedChild (slay t pid) v = kill-NoMissedChild t pid _ refl v
Step-NoMissedChild (switch t u i e) v = schedule-NoMissedChild t u i e v

-- In every history of the process table, no process sleeps in `wait` while a child of its own is a
-- zombie: no exit of a child is missed.
pub Reach-NoMissedChild : {t u : Table} → NoMissedChild t → Reach t u → NoMissedChild u
Reach-NoMissedChild v here = v
Reach-NoMissedChild v (next r s) = Step-NoMissedChild s (Reach-NoMissedChild v r)
