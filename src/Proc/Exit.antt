-- ===== src/Proc/Exit.antt =====
-- `exit` and `wait` of src/proc.c: what becomes of a process, its parent and its children.
use pinky_os.Prelude.{
  ℕ, ◌<◌, ◌≡◌, refl, sym, ◌≢◌, ◌⊎◌, inl, inr, Bool, true, false, ◌&&◌, Option, none, some, [],
  arith, eq_of_test, test_of_ne, eq_self, Bool-cases, Option-cases,
}
use mathlib.Core.Path.{subst}
use pinky_os.Outcome.{ok}
use pinky_os.Proc.{
  nproc, State, unused, zombie, proc_at, same_slot, Proc, Table, put, scan, is_zombie, wakeup,
  adopt, wake_parent, exit, is_child, wait, Waited, reaped, childless, asleep, sleep,
}
use pinky_os.Proc.Scan.{scan-none, scan-some}
use pinky_os.Proc.Families.{
  waiting, NoMissedChild, Milder, wakeup-Milder, wakeup-not_waiting, adopt-Milder, adopt-parent,
  adopt-NoMissedChild,
}

-- The process that calls `exit` is not `initproc` nor its own parent.
pub record CanExit (t : Table) (me : ℕ) : Type 0 where
  pub not_init : me ≢ t.initproc
  pub init_slot : t.initproc < nproc
  pub not_own_parent : same_slot (t.proc me).parent me ≡ false

-- The table that `exit` leaves.
pub record Exited (t : Table) (me : ℕ) (u : Table) : Type 0 where
  pub dead : (u.proc me).state ≡ zombie
  pub no_orphans : (c : ℕ) → c < nproc → is_child me (u.proc c) ≡ false
  pub adopted :
      (c : ℕ) → c < nproc → is_child me (t.proc c) ≡ true → (u.proc c).parent ≡ some t.initproc
  pub parent_up : (p : ℕ) → p < nproc → is_child p (t.proc me) ≡ true → waiting u p ≡ false
  pub families : NoMissedChild u

wake_parent-Milder : (t : Table) (o : Option ℕ) → Milder t (wake_parent t o)
wake_parent-Milder t none = record { awake = λ p w. w; same = λ c. refl; init = refl }
wake_parent-Milder t (some p) = wakeup-Milder t (proc_at p)

wake_parent-parents :
    (t : Table) (o : Option ℕ) (j : ℕ) → ((wake_parent t o).proc j).parent ≡ (t.proc j).parent
unfolding wakeup
wake_parent-parents t none j = refl
wake_parent-parents t (some p) j = ground arith

wake_parent-up :
    (t : Table) (o : Option ℕ) (p : ℕ)
    → p < nproc
    → same_slot o p ≡ true
    → waiting (wake_parent t o) p ≡ false
wake_parent-up t none p h e = cc
wake_parent-up t (some q) p h e = rw (eq_of_test q p e) (wakeup-not_waiting t p h)

wake_parent-NoMissedChild :
    (t : Table) (o : Option ℕ) → NoMissedChild t → NoMissedChild (wake_parent t o)
wake_parent-NoMissedChild t o v p c hp hc w k =
    let m = wake_parent-Milder t o in
    ground (arith, m.same c, m.awake p, v p c hp hc, wake_parent-parents t o c)

-- A process other than `initproc` that calls `exit` becomes a zombie with no children left:
-- each went to `initproc`. Its parent does not sleep in `wait`, and no process sleeps in `wait`
-- with a zombie child, if none did before.
pub exit_lem :
    (t : Table) (me : ℕ)
    → CanExit t me
    → NoMissedChild t
    → (u : Table) × (exit t me ≡ ok u) × Exited t me u
unfolding exit
exit_lem t me h v =
    let parent = (t.proc me).parent in
    let t1 = wake_parent t parent in
    let t2 = adopt t1 me 0 nproc in
    let m1 = wake_parent-Milder t parent in
    let m2 = adopt-Milder nproc t1 me 0 in
    let u = put t2 me (record (t2.proc me) { state = zombie }) in
    let not_me : t1.initproc ≢ me = rw m1.init (λ e. h.not_init (sym e)) in
    let v2 =
      adopt-NoMissedChild nproc t1 me 0 (rw m1.init h.init_slot)
        (wake_parent-NoMissedChild t parent v) in
    let parents = λ (c : ℕ). adopt-parent nproc t1 me 0 c not_me in
    let olds = wake_parent-parents t parent in
    (
      u,
      rw (test_of_ne me t.initproc h.not_init),
      record {
        dead = rw (eq_self me);
        no_orphans = λ c hc. ground (arith, parents c, olds c, m1.init);
        adopted = λ c hc k. ground (arith, parents c, olds c, m1.init);
        parent_up = λ p hp k. ground (arith, m2.awake p, wake_parent-up t parent p hp k);
        families = λ p c hp hc w k. ground (
          arith,
          v2 p c hp hc,
          parents c,
          olds c,
          m2.awake p,
          wake_parent-up t parent p hp,
          eq_of_test c me,
        );
      },
    )

-- What `wait` returns, by its result.
abbrev pub WaitedFor : Table → ℕ → Waited × Table → Type 0
WaitedFor t me (reaped pid, u) =
    (c : ℕ) × (c < nproc)
    × (is_child me (t.proc c) ≡ true)
    × ((t.proc c).state ≡ zombie)
    × ((t.proc c).pid ≡ pid)
    × ((u.proc c).state ≡ unused)
    × ((u.proc c).parent ≡ none)
    × ((j : ℕ) → j ≢ c → u.proc j ≡ t.proc j)
WaitedFor t me (childless, u) =
    (u ≡ t)
    × (((c : ℕ) → c < nproc → is_child me (t.proc c) ≡ false) ⊎ ((t.proc me).killed ≡ true))
    × ((c : ℕ) → c < nproc → is_child me (t.proc c) ≡ true → is_zombie (t.proc c).state ≡ false)
WaitedFor t me (asleep, u) =
    ((t.proc me).killed ≡ false)
    × (u ≡ sleep t me (proc_at me))
    × (waiting u me ≡ true)
    × ((c : ℕ) → c < nproc → is_child me (t.proc c) ≡ true → is_zombie (t.proc c).state ≡ false)
    × ((c : ℕ) × (c < nproc) × (is_child me (t.proc c) ≡ true))

is_zombie-zombie : (s : State) → is_zombie s ≡ true → s ≡ zombie
is_zombie-zombie s h = ground arith

abbrev dead_child : ℕ → Proc → Bool
dead_child me p = is_child me p && is_zombie p.state

abbrev reap : Proc → Proc
reap p = record p {
  kstack = none;
  state = unused;
  pid = 0;
  parent = none;
  name = [];
  killed = false;
}

module _ (t : Table) (me : ℕ) where
  wait-reaped :
      (i : ℕ)
      → scan (dead_child me) t.proc 0 nproc ≡ some i
      → wait t me ≡ (reaped (t.proc i).pid, put t i (reap (t.proc i)))
  unfolding wait
  wait-reaped i d = ground arith

  wait-childless :
      scan (dead_child me) t.proc 0 nproc ≡ none
      → scan (is_child me) t.proc 0 nproc ≡ none
      → wait t me ≡ (childless, t)
  unfolding wait
  wait-childless d e = ground arith

  wait-killed :
      (i : ℕ)
      → scan (dead_child me) t.proc 0 nproc ≡ none
      → scan (is_child me) t.proc 0 nproc ≡ some i
      → (t.proc me).killed ≡ true
      → wait t me ≡ (childless, t)
  unfolding wait
  wait-killed i d e k = ground arith

  wait-asleep :
      (i : ℕ)
      → scan (dead_child me) t.proc 0 nproc ≡ none
      → scan (is_child me) t.proc 0 nproc ≡ some i
      → (t.proc me).killed ≡ false
      → wait t me ≡ (asleep, sleep t me (proc_at me))
  unfolding wait
  wait-asleep i d e k = ground arith

  no_zombie :
      scan (dead_child me) t.proc 0 nproc ≡ none
      → (c : ℕ) → c < nproc
      → is_child me (t.proc c) ≡ true
      → is_zombie (t.proc c).state ≡ false
  no_zombie d c h child = ground (arith, scan-none (dead_child me) t.proc 0 nproc c d)

  wait_kids :
      (o : Option ℕ)
      → scan (is_child me) t.proc 0 nproc ≡ o
      → scan (dead_child me) t.proc 0 nproc ≡ none
      → WaitedFor t me (wait t me)
  wait_kids none e d =
      subst (WaitedFor t me) (sym (wait-childless d e))
        (refl, inl (λ c h. scan-none (is_child me) t.proc 0 nproc c e (omega arith) h), no_zombie d)
  wait_kids (some i) e d = elim (Bool-cases (t.proc me).killed) [
    | inl k ↦ subst (WaitedFor t me) (sym (wait-killed i d e k)) (refl, inr k, no_zombie d)
    | inr k ↦ subst (WaitedFor t me) (sym (wait-asleep i d e k)) (
      k,
      refl,
      rw (eq_self me, eq_self me),
      no_zombie d,
      (let f = scan-some (is_child me) t.proc 0 nproc i e in (i, f.1, f.2)),
    )
  ]

  -- `wait` returns the pid of a zombie child and frees its slot, touching no other. It returns -1
  -- only when no child is a zombie and there is no child or the caller was killed; when no child is a
  -- zombie and the caller was not killed but has a child, it sleeps.
  pub wait_lem : WaitedFor t me (wait t me)
  wait_lem = elim (Option-cases (scan (dead_child me) t.proc 0 nproc)) [
    | inl d ↦ wait_kids (scan (is_child me) t.proc 0 nproc) refl d
    | inr (i, d) ↦
        let f = scan-some (dead_child me) t.proc 0 nproc i d in
        subst (WaitedFor t me) (sym (wait-reaped i d)) (
          i,
          f.1,
          ground arith,
          is_zombie-zombie (t.proc i).state (ground arith),
          refl,
          rw (eq_self i),
          rw (eq_self i),
          λ j ne. ground arith,
        )
  ]
