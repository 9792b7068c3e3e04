-- ===== src/Pipe/Queue.antt =====
-- `pipewrite` and `piperead` of src/pipe.c against the queue of bytes that the pipe holds.
use pinky_os.Prelude.{
  ℕ, zero, suc, ◌≡◌, refl, sym, ◌∙◌, ap, ◌≢◌, ◌⊎◌, inl, inr, Bool, true, false, List, [], ◌∷◌, ◌++◌,
  append_assoc, arith, min, length, Bool-cases,
}
use pinky_os.Pipe.{
  Pipe, pipe_size, on_nread, on_nwrite, WriteStop, written, broken, write_sleep, ReadStop, received,
  interrupted, read_sleep, Called, is_full, is_empty, put, front, stall, write, copy, read,
}
use pinky_os.Pipe.Contents.{
  used, IsValid, contents, put-IsValid, contents-put, advance-IsValid, contents-advance,
}

-- The bytes that the call left in `addr`.
abbrev pub unsent : WriteStop → List ℕ
unsent written = []
unsent (broken bytes) = bytes
unsent (write_sleep bytes) = bytes

-- Why the writer stopped short: there was no room, and the read end was closed or open.
abbrev pub Stopped : Pipe → WriteStop → Type 0
Stopped p written = Unit {0}
Stopped p (broken bytes) = (used p ≡ pipe_size) × (p.readopen ≡ false) × (bytes ≢ [])
Stopped p (write_sleep bytes) = (used p ≡ pipe_size) × (p.readopen ≡ true) × (bytes ≢ [])

pub record Wrote (p : Pipe) (bytes : List ℕ) (c : Called WriteStop) : Type 0 where
  pub valid : IsValid c.pipe
  pub queue : contents c.pipe ++ unsent c.result ≡ contents p ++ bytes
  pub reason : Stopped c.pipe c.result
  pub wakes : (c.wakes ≡ on_nread ∷ []) ⊎ (c.pipe.readopen ≡ false)
  pub readopen_kept : c.pipe.readopen ≡ p.readopen
  pub writeopen_kept : c.pipe.writeopen ≡ p.writeopen

full-used : {p : Pipe} → IsValid p → is_full p ≡ true → used p ≡ pipe_size
full-used v h = ground arith

stall-Wrote :
    (readopen : Bool) (byte : ℕ) (rest : List ℕ) {p : Pipe}
    → IsValid p
    → is_full p ≡ true
    → p.readopen ≡ readopen
    → Wrote p (byte ∷ rest) (stall p readopen (byte ∷ rest))
unfolding stall
stall-Wrote true byte rest v full open_end = record {
  valid = v;
  queue = refl;
  reason = (full-used v full, open_end, λ e. cc);
  wakes = inl refl;
  readopen_kept = refl;
  writeopen_kept = refl;
}
stall-Wrote false byte rest v full shut_end = record {
  valid = v;
  queue = refl;
  reason = (full-used v full, shut_end, λ e. cc);
  wakes = inr shut_end;
  readopen_kept = refl;
  writeopen_kept = refl;
}

Wrote-put :
    (byte : ℕ) (rest : List ℕ) {p : Pipe}
    → IsValid p
    → is_full p ≡ false
    → Wrote (put p byte) rest (write (put p byte) rest)
    → Wrote p (byte ∷ rest) (write (put p byte) rest)
unfolding put
Wrote-put byte rest {p} v room w = record {
  valid = w.valid;
  queue = w.queue ∙ rw (contents-put byte v room) (append_assoc (contents p) (byte ∷ []) rest);
  reason = w.reason;
  wakes = w.wakes;
  readopen_kept = w.readopen_kept;
  writeopen_kept = w.writeopen_kept;
}

-- `pipewrite` appends to the queue the bytes that it does not leave in `addr`, in order. It leaves
-- some only when the pipe is full: it sleeps if the read end is open, and returns -1 if not.
pub write_lem : (bytes : List ℕ) {p : Pipe} → IsValid p → Wrote p bytes (write p bytes)
unfolding write
write_lem [] {p} v = record {
  valid = v;
  queue = refl;
  reason = tt;
  wakes = inl refl;
  readopen_kept = refl;
  writeopen_kept = refl;
}
write_lem (byte ∷ rest) {p} v = elim (Bool-cases (is_full p)) [
  | inl full ↦ rw full (stall-Wrote p.readopen byte rest v full refl)
  | inr room ↦ rw room (Wrote-put byte rest v room (write_lem rest (put-IsValid byte v room)))
]

record Copied (p : Pipe) (n : ℕ) (out : List ℕ × Pipe) : Type 0 where
  valid : IsValid out.1
  queue : out.0 ++ contents out.1 ≡ contents p
  count : length out.0 ≡ min n (used p)
  readopen_kept : out.1.readopen ≡ p.readopen
  writeopen_kept : out.1.writeopen ≡ p.writeopen

copy-Copied : (n : ℕ) {p : Pipe} → IsValid p → Copied p n (copy p n)
unfolding copy
copy-Copied zero v = record {
  valid = v;
  queue = refl;
  count = omega arith;
  readopen_kept = refl;
  writeopen_kept = refl;
}
copy-Copied (suc n) {p} v = elim (Bool-cases (is_empty p)) [
  | inl empty ↦ rw empty (record {
    valid = v;
    queue = refl;
    count = ground arith;
    readopen_kept = refl;
    writeopen_kept = refl;
  })
  | inr more ↦
      let c = copy-Copied n (advance-IsValid v more) in
      rw more (record {
        valid = c.valid;
        queue = ap (λ q. front p ∷ q) c.queue ∙ sym (contents-advance v more);
        count = ground (arith, c.count, v);
        readopen_kept = c.readopen_kept;
        writeopen_kept = c.writeopen_kept;
      })
]

-- The bytes that the call delivered to its caller.
abbrev pub delivered : ReadStop → List ℕ
delivered (received bytes) = bytes
delivered interrupted = []
delivered read_sleep = []

-- What each result of `piperead` says of the pipe it was called on.
abbrev pub Reason : Pipe → (killed : Bool) → ℕ → ReadStop → Type 0
Reason p killed n (received bytes) =
    (length bytes ≡ min n (used p)) × (used p ≡ 0 → p.writeopen ≡ false)
Reason p killed n interrupted = (used p ≡ 0) × (p.writeopen ≡ true) × (killed ≡ true)
Reason p killed n read_sleep = (used p ≡ 0) × (p.writeopen ≡ true) × (killed ≡ false)

pub record Read (p : Pipe) (killed : Bool) (n : ℕ) (c : Called ReadStop) : Type 0 where
  pub valid : IsValid c.pipe
  pub queue : delivered c.result ++ contents c.pipe ≡ contents p
  pub reason : Reason p killed n c.result
  pub wakes : (c.wakes ≡ on_nwrite ∷ []) ⊎ (used p ≡ 0)
  pub readopen_kept : c.pipe.readopen ≡ p.readopen
  pub writeopen_kept : c.pipe.writeopen ≡ p.writeopen

-- `piperead` takes the oldest min(n, held) bytes off the queue. It sleeps, or returns -1 if the
-- process was killed, exactly when the pipe is empty and its write end is open.
pub read_lem : (killed : Bool) (n : ℕ) {p : Pipe} → IsValid p → Read p killed n (read p killed n)
unfolding read
read_lem killed n {p} v = ground (arith, copy-Copied n v)
