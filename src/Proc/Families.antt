-- ===== src/Proc/Families.antt =====
-- Parents and children in src/proc.c: a parent that sleeps in `wait` has no zombie child, and a
-- process that exits leaves no orphans.
use pinky_os.Prelude.{
  ℕ, zero, suc, ◌+◌, ◌<◌, ◌≡◌, refl, ap, ◌∙◌, ◌≢◌, Bool, true, false, ◌&&◌, some, arith, ltb, leb,
  ◌==◌, if◌then◌else◌, eq_self,
}
use pinky_os.Proc.{
  nproc, runnable, Chan, proc_at, sleeps_on, same_slot, Table, is_sleeping, is_zombie, wakeup,
  adopt_one, adopt, is_child,
}

-- The process in slot p sleeps in `wait`.
abbrev pub waiting : Table → ℕ → Bool
waiting t p = is_sleeping (t.proc p).state && sleeps_on (t.proc p).chan (proc_at p)

abbrev pub NoMissedChild : Table → Type 0
NoMissedChild t =
    (p c : ℕ)
    → p < nproc
    → c < nproc
    → waiting t p ≡ true
    → is_child p (t.proc c) ≡ true
    → is_zombie (t.proc c).state ≡ false

-- `wakeup` wakes exactly the processes that sleep on the channel, and changes nothing else.
pub wakeup_lem :
    (t : Table) (c : Chan) (i : ℕ)
    → (wakeup t c).proc i ≡ (
        if ltb i nproc && (is_sleeping (t.proc i).state && sleeps_on (t.proc i).chan c)
        then record (t.proc i) { state = runnable }
        else t.proc i)
unfolding wakeup
wakeup_lem t c i = ground arith

-- What a step of `exit` keeps: nobody falls asleep, turns into a zombie or ceases to be one.
pub record Milder (t u : Table) : Type 0 where
  pub awake : (p : ℕ) → waiting u p ≡ true → waiting t p ≡ true
  pub same : (c : ℕ) → is_zombie (u.proc c).state ≡ is_zombie (t.proc c).state
  pub init : u.initproc ≡ t.initproc

pub wakeup-Milder : (t : Table) (c : Chan) → Milder t (wakeup t c)
unfolding wakeup
wakeup-Milder t c = record { awake = λ p w. ground arith; same = λ p. ground arith; init = refl }

pub wakeup-not_waiting : (t : Table) (p : ℕ) → p < nproc → waiting (wakeup t (proc_at p)) p ≡ false
unfolding wakeup
wakeup-not_waiting t p h = ground (arith, eq_self p)

adopt_one-Milder : (t : Table) (me i : ℕ) → Milder t (adopt_one t me i)
unfolding adopt_one wakeup
adopt_one-Milder t me i = record {
  awake = λ p w. ground arith;
  same = λ p. ground arith;
  init = ground arith;
}

adopt_one-parent :
    (t : Table) (me i j : ℕ)
    → ((adopt_one t me i).proc j).parent
      ≡ (if j == i && same_slot (t.proc i).parent me then some t.initproc else (t.proc j).parent)
unfolding adopt_one wakeup
adopt_one-parent t me i j = ground arith

adopt_one-NoMissedChild :
    (t : Table) (me i : ℕ) → t.initproc < nproc → NoMissedChild t → NoMissedChild (adopt_one t me i)
unfolding adopt_one wakeup
adopt_one-NoMissedChild t me i h v p c hp hc w k = ground (arith, v p c hp hc)

-- The loop of `exit` at n slots from i on.
pub adopt-Milder : (n : ℕ) (t : Table) (me i : ℕ) → Milder t (adopt t me i n)
unfolding adopt
adopt-Milder zero t me i = record { awake = λ p w. w; same = λ c. refl; init = refl }
adopt-Milder (suc n) t me i =
    let a = adopt_one-Milder t me i in
    let b = adopt-Milder n (adopt_one t me i) me (i + 1) in
    record {
      awake = λ p w. a.awake p (b.awake p w);
      same = λ c. b.same c ∙ a.same c;
      init = b.init ∙ a.init;
    }

pub adopt-parent :
    (n : ℕ) (t : Table) (me i j : ℕ)
    → t.initproc ≢ me
    → ((adopt t me i n).proc j).parent ≡ (
        if leb i j && ltb j (i + n) && same_slot (t.proc j).parent me
        then some t.initproc
        else (t.proc j).parent)
unfolding adopt
adopt-parent zero t me i j h = ground arith
adopt-parent (suc n) t me i j h =
    let a = adopt_one-Milder t me i in
    ground (
      arith,
      a.init,
      adopt_one-parent t me i j,
      adopt-parent n (adopt_one t me i) me (i + 1) j,
      ap (λ (k : ℕ). t.proc k) {x = i} {y = j},
    )

pub adopt-NoMissedChild :
    (n : ℕ) (t : Table) (me i : ℕ)
    → t.initproc < nproc
    → NoMissedChild t
    → NoMissedChild (adopt t me i n)
unfolding adopt
adopt-NoMissedChild zero t me i h v = v
adopt-NoMissedChild (suc n) t me i h v =
    adopt-NoMissedChild n (adopt_one t me i) me (i + 1) (rw ((adopt_one-Milder t me i).init) h)
      (adopt_one-NoMissedChild t me i h v)
