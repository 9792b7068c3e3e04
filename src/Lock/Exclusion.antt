-- ===== src/Lock/Exclusion.antt =====
-- Mutual exclusion of the locks of src/spinlock.c on any number of CPUs.
use pinky_os.Prelude.{
  ap, ℕ, ◌≡◌, refl, ◌≢◌, Bool, true, false, Option, none, some, List, [], ◌∷◌, arith, ◌&&◌,
  if◌then◌else◌, ◌∙◌, eq_self,
}
use pinky_os.Lock.{is_cpu, SpinLock}
use pinky_os.Lock.Smp.{
  Phase, outside, spinning, marking, inside, clearing, panicked, World, start, move_to, access, run,
  Move, step, boot, moved,
}

-- Whether a CPU in this phase has the lock word.
abbrev critical : Phase → Bool
critical outside = false
critical spinning = false
critical marking = true
critical inside = true
critical clearing = true
critical panicked = true

record Inv (w : World) : Type 0 where
  owner : Option ℕ
  free : w.lock.locked ≡ false → owner ≡ none
  taken : w.lock.locked ≡ true → owner ≢ none
  alone : (i : ℕ) → critical (w.phase i) ≡ true → owner ≡ some i

start-Inv : Inv start
start-Inv = record { owner = none; free = λ e. refl; taken = λ e. cc; alone = λ i e. cc }

spinning-Inv :
    (b : Bool) (i : ℕ) (w : World)
    → w.phase i ≡ spinning
    → w.lock.locked ≡ b
    → Inv w
    → Inv (if b then w else move_to w i marking (record w.lock { locked = true }))
spinning-Inv true i w e l v = v
spinning-Inv false i w e l v = record {
  owner = some i;
  free = λ h. cc;
  taken = λ h. λ k. cc;
  alone = λ j h. ground (arith, v.alone j, v.free l);
}

inside-Inv :
    (b : Bool) (i : ℕ) (w : World)
    → w.phase i ≡ inside
    → (w.lock.locked && is_cpu w.lock.cpu w.cpu) ≡ b
    → Inv w
    → Inv (
        if b
        then move_to w i clearing (record w.lock { cpu = none })
        else move_to w i panicked w.lock)
inside-Inv true i w e l v = record {
  owner = v.owner;
  free = v.free;
  taken = v.taken;
  alone = λ j h. ground (arith, v.alone j, v.alone i);
}
inside-Inv false i w e l v = record {
  owner = v.owner;
  free = v.free;
  taken = v.taken;
  alone = λ j h. ground (arith, v.alone j, v.alone i);
}

access-Inv : (p : Phase) (i : ℕ) (w : World) → w.phase i ≡ p → Inv w → Inv (access p i w)
unfolding access
access-Inv outside i w e v = record {
  owner = v.owner;
  free = v.free;
  taken = v.taken;
  alone = λ j h. ground (arith, v.alone j);
}
access-Inv spinning i w e v = spinning-Inv w.lock.locked i w e refl v
access-Inv marking i w e v = record {
  owner = v.owner;
  free = v.free;
  taken = v.taken;
  alone = λ j h. ground (arith, v.alone j, v.alone i);
}
access-Inv inside i w e v = inside-Inv (w.lock.locked && is_cpu w.lock.cpu w.cpu) i w e refl v
access-Inv clearing i w e v = record {
  owner = none;
  free = λ h. refl;
  taken = λ h. cc;
  alone = λ j h. ground (arith, v.alone j, v.alone i);
}
access-Inv panicked i w e v = v

moved-Inv : (x : Move) (w : World) → Inv w → Inv (moved x w)
moved-Inv (step i) w v = access-Inv (w.phase i) i w refl v
moved-Inv (boot i) w v = record { owner = v.owner; free = v.free; taken = v.taken; alone = v.alone }

run-Inv : (xs : List Move) (w : World) → Inv w → Inv (run xs w)
unfolding run
run-Inv [] w v = v
run-Inv (x ∷ xs) w v = run-Inv xs _ (moved-Inv x w v)

-- The holder is recorded, and no CPU has panicked.
record Steady (w : World) : Type 0 where
  inv : Inv w
  held : (i : ℕ) → w.phase i ≡ inside → (w.lock.locked ≡ true) × (w.lock.cpu ≡ some w.cpu)
  calm : (i : ℕ) → w.phase i ≢ panicked

spinning-Steady :
    (b : Bool) (i : ℕ) (w : World)
    → w.phase i ≡ spinning
    → w.lock.locked ≡ b
    → Steady w
    → Steady (if b then w else move_to w i marking (record w.lock { locked = true }))
spinning-Steady true i w e l v = v
spinning-Steady false i w e l v = record {
  inv = spinning-Inv false i w e l v.inv;
  held = λ j h. ground (arith, v.held j);
  calm = λ j h. ground (arith, v.calm j);
}

-- A holder is recorded as such.
holder_found :
    (lk : SpinLock) (c : ℕ)
    → lk.locked ≡ true
    → lk.cpu ≡ some c
    → (lk.locked && is_cpu lk.cpu c) ≡ true
holder_found lk c l h =
    ap (λ (b : Bool). b && is_cpu lk.cpu c) l ∙ ap (λ (o : Option ℕ). is_cpu o c) h ∙ eq_self c

inside-Steady :
    (b : Bool) (i : ℕ) (w : World)
    → w.phase i ≡ inside
    → (w.lock.locked && is_cpu w.lock.cpu w.cpu) ≡ b
    → Steady w
    → Steady (
        if b
        then move_to w i clearing (record w.lock { cpu = none })
        else move_to w i panicked w.lock)
inside-Steady true i w e l v = record {
  inv = inside-Inv true i w e l v.inv;
  held = λ j h. ground (arith, v.held j, v.inv.alone j, v.inv.alone i);
  calm = λ j h. ground (arith, v.calm j);
}
inside-Steady false i w e l v =
    let (locked, holder) = v.held i e in
    absurd (ground (arith, holder_found w.lock w.cpu locked holder, l))

access-Steady : (p : Phase) (i : ℕ) (w : World) → w.phase i ≡ p → Steady w → Steady (access p i w)
unfolding access
access-Steady outside i w e v = record {
  inv = access-Inv outside i w e v.inv;
  held = λ j h. ground (arith, v.held j);
  calm = λ j h. ground (arith, v.calm j);
}
access-Steady spinning i w e v = spinning-Steady w.lock.locked i w e refl v
access-Steady marking i w e v = record {
  inv = access-Inv marking i w e v.inv;
  held = λ j h. (ground (arith, v.inv.free, v.inv.alone i), refl);
  calm = λ j h. ground (arith, v.calm j);
}
access-Steady inside i w e v = inside-Steady (w.lock.locked && is_cpu w.lock.cpu w.cpu) i w e refl v
access-Steady clearing i w e v = record {
  inv = access-Inv clearing i w e v.inv;
  held = λ j h. ground (arith, v.inv.alone j, v.inv.alone i);
  calm = λ j h. ground (arith, v.calm j);
}
access-Steady panicked i w e v = v

-- Starts of CPUs before any of them is at the lock, and accesses after which no more start.
abbrev pub starts : List ℕ → List Move
starts [] = []
starts (i ∷ is) = boot i ∷ starts is

abbrev pub steps : List ℕ → List Move
steps [] = []
steps (i ∷ is) = step i ∷ steps is

starts-Steady :
    (is : List ℕ) (w : World) → ((i : ℕ) → w.phase i ≡ outside) → Inv w → Steady (run (starts is) w)
unfolding run
starts-Steady [] w out v = record {
  inv = v;
  held = λ i h. ground (arith, out i);
  calm = λ i h. ground (arith, out i);
}
starts-Steady (i ∷ is) w out v =
    starts-Steady is (record w { cpu = i }) out (moved-Inv (boot i) w v)

steps-Steady : (is : List ℕ) (w : World) → Steady w → Steady (run (steps is) w)
unfolding run
steps-Steady [] w v = v
steps-Steady (i ∷ is) w v = steps-Steady is _ (access-Steady (w.phase i) i w refl v)

-- Whatever the order in which CPUs start and move at one lock, two CPUs are never both between
-- `acquire` and `release`. If all CPUs that start do so before the first moves at the lock, no CPU finds
-- in `release` that it does not hold the lock.
pub exclusion :
    (moves : List Move) (started accesses : List ℕ) (i j : ℕ)
    → let w = run moves start in
      ((w.phase i ≡ inside) × (w.phase j ≡ inside) → i ≡ j)
      × ((run (steps accesses) (run (starts started) start)).phase i ≢ panicked)
exclusion moves started accesses i j =
    let v = run-Inv moves start start-Inv in
    (
      λ h. ground (arith, v.alone i, v.alone j),
      (steps-Steady accesses _ (starts-Steady started start (λ k. refl) start-Inv)).calm i,
    )
