-- ===== src/Pipe.antt =====
-- The pipes of src/pipe.c: a ring of PIPESIZE bytes between `nread` and `nwrite`, two free-running
-- `uint` counters. One call runs until it returns or sleeps. A sleeper that wakes goes on with the
-- loop that it slept in, which is the same function at the bytes that are left.
pub mod Contents
pub mod Queue
pub mod Traffic
pub mod Stream
mod Tests
use pinky_os.Prelude.{
  ℕ, zero, suc, ◌+◌, ◌%◌, ◌^◌, Bool, true, false, not, ◌&&◌, ◌||◌, List, [], ◌∷◌, ◌==◌,
  if◌then◌else◌, get_or, set, replicate,
}

-- PIPESIZE
abbrev pub pipe_size : ℕ
pipe_size = 512

-- `uint` arithmetic wraps.
abbrev pub uint : ℕ → ℕ
uint n = n % 2 ^ 32

-- `struct pipe`, but for its lock, which is held throughout each call.
pub record Pipe : Type 0 where
  pub buffer : List ℕ  -- `data`
  pub nread : ℕ
  pub nwrite : ℕ
  pub readopen : Bool
  pub writeopen : Bool

-- The addresses `&p->nread` and `&p->nwrite` that processes sleep on.
pub data Chan : Type 0 where
  on_nread on_nwrite : Chan

-- How `pipewrite` stops: it returns n, returns -1, or sleeps on `&p->nwrite`. The bytes are those
-- of `addr` that were not copied.
pub data WriteStop : Type 0 where
  written : WriteStop
  broken : List ℕ → WriteStop
  write_sleep : List ℕ → WriteStop

-- How `piperead` stops: it returns the bytes that it copied, returns -1, or sleeps on `&p->nread`.
pub data ReadStop : Type 0 where
  received : List ℕ → ReadStop
  interrupted : ReadStop
  read_sleep : ReadStop

-- What a call does: the pipe that it leaves, the channels it wakes, and its result.
pub record Called (R : Type 0) : Type 0 where
  pub pipe : Pipe
  pub wakes : List Chan
  pub result : R

-- The fields that `pipealloc` sets. `kmalloc` leaves the bytes of `data` as they were.
pub alloc : List ℕ → Pipe
alloc bytes = record { buffer = bytes; nread = 0; nwrite = 0; readopen = true; writeopen = true }

abbrev pub is_full : Pipe → Bool
is_full p = p.nwrite == uint (p.nread + pipe_size)

abbrev pub is_empty : Pipe → Bool
is_empty p = p.nread == p.nwrite

-- `p->data[p->nwrite++ % PIPESIZE] = byte`
pub put : Pipe → ℕ → Pipe
put p byte = record p {
  buffer = set p.buffer (p.nwrite % pipe_size) byte;
  nwrite = uint (p.nwrite + 1);
}

-- The body of the inner `while` of `pipewrite`: the pipe is full.
pub stall : Pipe → (readopen : Bool) → List ℕ → Called WriteStop
stall p true bytes = record { pipe = p; wakes = on_nread ∷ []; result = write_sleep bytes }
stall p false bytes = record { pipe = p; wakes = []; result = broken bytes }

-- `pipewrite`, at the bytes of `addr` from index i on.
pub write : Pipe → List ℕ → Called WriteStop
unfolding stall put
write p [] = record { pipe = p; wakes = on_nread ∷ []; result = written }
write p (byte ∷ rest) =
    let next = write (put p byte) rest in
    if is_full p then stall p p.readopen (byte ∷ rest) else next

-- `p->data[p->nread++ % PIPESIZE]`, the byte and the pipe after it.
abbrev pub front : Pipe → ℕ
front p = get_or p.buffer (p.nread % pipe_size) 0

abbrev pub advance : Pipe → Pipe
advance p = record p { nread = uint (p.nread + 1) }

-- The loop of `piperead` that copies at most n bytes.
pub copy : Pipe → ℕ → List ℕ × Pipe
copy p zero = ([], p)
copy p (suc n) =
    let rest = copy (advance p) n in if is_empty p then ([], p) else (front p ∷ rest.0, rest.1)

-- `piperead`; `killed` is `proc->killed`.
pub read : Pipe → (killed : Bool) → ℕ → Called ReadStop
unfolding copy
read p killed n =
    if is_empty p && p.writeopen
    then record { pipe = p; wakes = []; result = if killed then interrupted else read_sleep }
    else let (bytes, p') = copy p n in
      record { pipe = p'; wakes = on_nwrite ∷ []; result = received bytes }

-- `pipeclose`: the result says whether the pipe was given back to `kfree`.
unfoldable pub close : Pipe → (writable : Bool) → Called Bool
close p writable =
    let p' = if writable then record p { writeopen = false } else record p { readopen = false } in
    record {
      pipe = p';
      wakes = (if writable then on_nread else on_nwrite) ∷ [];
      result = not p'.readopen && not p'.writeopen;
    }
