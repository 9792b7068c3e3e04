-- ===== src/Proc.antt =====
-- The process table of src/proc.c. Each function below runs with `ptable.lock` held, but for
-- `allocproc`, `fork` and the closing of files in `exit`, which touch only slots that no other CPU
-- uses. What other parts of the kernel answer (a free page for the stack, a copy of the address
-- space) is an argument.
pub mod Scan
pub mod Families
pub mod Exit
pub mod History
pub mod Kill
mod Tests
use pinky_os.Prelude.{
  ℕ, zero, suc, ◌+◌, ◌-◌, ◌*◌, ◌/◌, ◌%◌, ◌^◌, ◌≤◌, ◌<◌, min, ◌≡◌, refl, sym, ap, ◌∙◌, ◌≢◌, ◌↔◌, ◌⊎◌,
  inl, inr, Bool, true, false, not, ◌&&◌, ◌||◌, Option, none, some, List, [], ◌∷◌, ◌++◌, append-nil,
  append_assoc, arith, ltb, leb, ◌==◌, if◌then◌else◌, eq_of_test, ne_of_test, eq_self, Bool-cases,
  Option-cases, length, get_or, set, take, replicate, length-append, length-set, length-replicate,
  get_or-set_self, get_or-set_ne,
}
use Prim.Native.String.{String}
use pinky_os.Outcome.{Outcome, ok, panic, waits, ◌>>=◌}
use pinky_os.Lock.{Cpu, SpinLock, holding}

-- NPROC
abbrev pub nproc : ℕ
nproc = 64

-- `enum procstate`
pub data State : Type 0 where
  unused embryo sleeping runnable running zombie : State

-- What a process sleeps on: the address of a `struct proc`, or any other address.
pub data Chan : Type 0 where
  proc_at : ℕ → Chan
  address : ℕ → Chan

abbrev pub same_chan : Chan → Chan → Bool
same_chan (proc_at i) (proc_at j) = i == j
same_chan (address a) (address b) = a == b
same_chan (proc_at i) (address b) = false
same_chan (address a) (proc_at j) = false

abbrev pub sleeps_on : Option Chan → Chan → Bool
sleeps_on none c = false
sleeps_on (some d) c = same_chan d c

abbrev pub same_slot : Option ℕ → ℕ → Bool
same_slot none i = false
same_slot (some j) i = j == i

-- `struct proc`. Pointers to processes are slots of `ptable.proc`; files and inodes go by number.
pub record Proc : Type 0 where
  pub state : State
  pub pid : ℕ
  pub parent : Option ℕ
  pub chan : Option Chan
  pub killed : Bool
  pub kstack : Option ℕ
  pub pgdir : Option ℕ
  pub sz : ℕ
  pub r0 : ℕ  -- of the trap frame `tf`
  pub regs : List ℕ  -- its other registers
  pub ofile : List (Option ℕ)
  pub cwd : ℕ
  pub name : List ℕ

-- `ptable.proc`, `nextpid` and `initproc`.
pub record Table : Type 0 where
  pub proc : ℕ → Proc
  pub nextpid : ℕ
  pub initproc : ℕ

abbrev pub put : Table → ℕ → Proc → Table
put t i p = record t { proc = λ j. if j == i then p else t.proc j }

-- The first slot from i on, of n, whose process passes the test.
unfoldable pub scan : (Proc → Bool) → (ℕ → Proc) → (i n : ℕ) → Option ℕ
scan test proc i zero = none
scan test proc i (suc n) =
    let rest = scan test proc (i + 1) n in if test (proc i) then some i else rest

abbrev pub is_unused : Proc → Bool
is_unused p = elim p.state [ unused ↦ true | _ ↦ false ]

abbrev pub is_sleeping : State → Bool
is_sleeping sleeping = true
is_sleeping _ = false

abbrev pub is_zombie : State → Bool
is_zombie zombie = true
is_zombie _ = false

-- `allocproc`; `stack` is what `alloc_page` returns. The slot keeps its other fields.
unfoldable pub allocproc : Table → (stack : Option ℕ) → Option ℕ × Table
allocproc t stack = elim (scan is_unused t.proc 0 nproc) [
  | none ↦ (none, t)
  | some i ↦
      let p = record (t.proc i) { state = embryo; pid = t.nextpid } in
      let t' = record t { nextpid = (t.nextpid + 1) % 2 ^ 32 } in
      elim stack [
        | none ↦ (none, put t' i (record p { state = unused; kstack = none }))
        | some k ↦ (some i, put t' i (record p { kstack = some k }))
      ]
]

-- `fork` from the copy of the address space on, in the slot that `allocproc` found.
unfoldable pub fork_into :
    Table → (me i : ℕ) → (space : Option ℕ) → Option ℕ × Table × List (Option ℕ)
fork_into t me i none = (none, put t i (record (t.proc i) { kstack = none; state = unused }), [])
fork_into t me i (some d) =
    let parent = t.proc me in
    let child = record (t.proc i) {
      pgdir = some d;
      sz = parent.sz;
      parent = some me;
      regs = parent.regs;
      r0 = 0;
      ofile = parent.ofile;
      cwd = parent.cwd;
      state = runnable;
      name = parent.name;
    } in
    (some child.pid, put t i child, some parent.cwd ∷ parent.ofile)

-- `fork` by the process in slot `me`; `space` is what `copyuvm` returns, and the last component
-- the directory (`idup`) and the files (`filedup`) that the child has new references to.
unfoldable pub fork :
    Table → (me : ℕ) → (stack space : Option ℕ) → Option ℕ × Table × List (Option ℕ)
unfolding allocproc fork_into
fork t me stack space =
    let (slot, t') = allocproc t stack in
    elim slot [ none ↦ (none, t', []) | some i ↦ fork_into t' me i space ]

-- `wakeup1`
abbrev pub wake : Chan → Proc → Proc
wake c p = if is_sleeping p.state && sleeps_on p.chan c then record p { state = runnable } else p

unfoldable pub wakeup : Table → Chan → Table
wakeup t c = record t { proc = λ i. if ltb i nproc then wake c (t.proc i) else t.proc i }

-- What `exit` does at slot i of its loop: a child of `me` passes to `initproc`.
pub adopt_one : Table → (me i : ℕ) → Table
adopt_one t me i =
    let u = put t i (record (t.proc i) { parent = some t.initproc }) in
    let v = if is_zombie (t.proc i).state then wakeup u (proc_at t.initproc) else u in
    if same_slot (t.proc i).parent me then v else t

pub adopt : Table → (me i n : ℕ) → Table
adopt t me i zero = t
adopt t me i (suc n) = adopt (adopt_one t me i) me (i + 1) n

abbrev pub wake_parent : Table → Option ℕ → Table
wake_parent t none = t
wake_parent t (some p) = wakeup t (proc_at p)

-- `exit` from `acquire(&ptable.lock)` up to the call of `sched`.
pub exit : Table → (me : ℕ) → Outcome Table
exit t me =
    if me == t.initproc
    then panic "init exiting"
    else let u = adopt (wake_parent t (t.proc me).parent) me 0 nproc in
      ok (put u me (record (u.proc me) { state = zombie }))

abbrev pub is_child : ℕ → Proc → Bool
is_child me p = same_slot p.parent me

-- What one round of `wait` comes to: a child's pid, -1, or sleep.
pub data Waited : Type 0 where
  reaped : ℕ → Waited
  childless : Waited
  asleep : Waited

-- `wait`, up to its return or to its call of `sleep`.
unfoldable pub wait : Table → (me : ℕ) → Waited × Table
wait t me = elim (scan (λ p. is_child me p && is_zombie p.state) t.proc 0 nproc) [
  | some i ↦ (
    reaped (t.proc i).pid,
    put t i (record (t.proc i) {
      kstack = none;
      state = unused;
      pid = 0;
      parent = none;
      name = [];
      killed = false;
    }),
  )
  | none ↦ elim (scan (is_child me) t.proc 0 nproc) [
    | none ↦ (childless, t)
    | some i ↦
        if (t.proc me).killed
        then (childless, t)
        else (asleep, put t me (record (t.proc me) { chan = some (proc_at me); state = sleeping }))
  ]
]

-- `sleep` on any channel, up to its call of `sched`, and what it does when it is run again.
abbrev pub sleep : Table → (me : ℕ) → Chan → Table
sleep t me c = put t me (record (t.proc me) { chan = some c; state = sleeping })

abbrev pub awake : Table → (me : ℕ) → Table
awake t me = put t me (record (t.proc me) { chan = none })

-- `yield`, up to its call of `sched`
abbrev pub yield : Table → (me : ℕ) → Table
yield t me = put t me (record (t.proc me) { state = runnable })

-- `kill`: whether a process was found (0 or -1).
unfoldable pub kill : Table → (pid : ℕ) → Bool × Table
kill t pid = elim (scan (λ p. p.pid == pid) t.proc 0 nproc) [
  | none ↦ (false, t)
  | some i ↦
      let p = t.proc i in
      (
        true,
        put t i
            (record p { killed = true; state = if is_sleeping p.state then runnable else p.state }),
      )
]

abbrev pub is_runnable : State → Bool
is_runnable runnable = true
is_runnable _ = false

abbrev pub is_running : State → Bool
is_running running = true
is_running _ = false

-- The body of the scheduler's loop at slot i: whether it switches to the process.
unfoldable pub schedule : Table → (i : ℕ) → Option Table
schedule t i =
    if is_runnable (t.proc i).state
    then some (put t i (record (t.proc i) { state = running }))
    else none

-- `sched` of a process in a state. `back` is the CPU as `swtch` leaves it when the process is run again.
unfoldable pub sched : Cpu → (ptable_lock : SpinLock) → State → (back : Cpu) → Outcome Cpu
sched c lk s back =
    if not (holding c lk)
    then panic "sched ptable.lock"
    else if not (c.ncli == 1)
    then panic "sched locks"
    else if is_running s
    then panic "sched running"
    else if c.enabled
    then panic "sched interruptible"
    else ok (record back { intena = c.intena })
