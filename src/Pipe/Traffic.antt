-- ===== src/Pipe/Traffic.antt =====
-- One writer and one reader at the two ends of a pipe of src/pipe.c, their calls interleaved in any
-- order, with the sleeps and wakeups that src/proc.c turns into scheduling.
use pinky_os.Prelude.{ℕ, ◌≡◌, Bool, true, false, not, ◌&&◌, List, [], ◌∷◌, ◌++◌}
use pinky_os.Pipe.{
  Pipe, pipe_size, Chan, on_nread, on_nwrite, WriteStop, written, broken, write_sleep, ReadStop,
  received, interrupted, read_sleep, write, read, close, alloc,
}
use pinky_os.Pipe.Contents.{IsValid, contents, used}
use pinky_os.Pipe.Queue.{unsent, delivered}

-- The pipe and its two processes: `pending` is what the writer's call has still to copy, `offered`
-- what its calls were given so far, and `got` what the reader's calls returned.
pub record Line : Type 0 where
  pub pipe : Pipe
  pub offered : List ℕ
  pub pending : List ℕ
  pub got : List ℕ
  pub writer_asleep : Bool
  pub reader_asleep : Bool

abbrev pub start : List ℕ → Line
start bytes = record {
  pipe = alloc bytes;
  offered = [];
  pending = [];
  got = [];
  writer_asleep = false;
  reader_asleep = false;
}

abbrev pub wakes_reader : List Chan → Bool
wakes_reader [] = false
wakes_reader (on_nread ∷ cs) = true
wakes_reader (on_nwrite ∷ cs) = wakes_reader cs

abbrev pub wakes_writer : List Chan → Bool
wakes_writer [] = false
wakes_writer (on_nwrite ∷ cs) = true
wakes_writer (on_nread ∷ cs) = wakes_writer cs

abbrev pub writer_sleeps : WriteStop → Bool
writer_sleeps (write_sleep bytes) = true
writer_sleeps written = false
writer_sleeps (broken bytes) = false

abbrev pub reader_sleeps : ReadStop → Bool
reader_sleeps read_sleep = true
reader_sleeps interrupted = false
reader_sleeps (received bytes) = false

-- The writer runs: it enters `pipewrite` with the bytes, or wakes with them in it.
unfoldable pub run_writer : Line → List ℕ → Line
run_writer l bytes =
    let c = write l.pipe bytes in
    record l {
      pipe = c.pipe;
      pending = unsent c.result;
      writer_asleep = writer_sleeps c.result;
      reader_asleep = l.reader_asleep && not (wakes_reader c.wakes);
    }

unfoldable pub run_reader : Line → (killed : Bool) → ℕ → Line
run_reader l killed n =
    let c = read l.pipe killed n in
    record l {
      pipe = c.pipe;
      got = l.got ++ delivered c.result;
      reader_asleep = reader_sleeps c.result;
      writer_asleep = l.writer_asleep && not (wakes_writer c.wakes);
    }

unfoldable pub run_close : Line → (writable : Bool) → Line
run_close l writable =
    let c = close l.pipe writable in
    record l {
      pipe = c.pipe;
      writer_asleep = l.writer_asleep && not (wakes_writer c.wakes);
      reader_asleep = l.reader_asleep && not (wakes_reader c.wakes);
    }

-- A sleeping process runs only after a wakeup, and holds its end open meanwhile.
pub data Step : Line → Line → Type 0 where
  call_write :
      (l : Line) (bytes : List ℕ)
      → l.pending ≡ []
      → l.writer_asleep ≡ false
      → Step l (run_writer (record l { offered = l.offered ++ bytes }) bytes)
  resume_write : (l : Line) → l.writer_asleep ≡ false → Step l (run_writer l l.pending)
  call_read :
      (l : Line) (killed : Bool) (n : ℕ)
      → l.reader_asleep ≡ false
      → l.pipe.readopen ≡ true
      → Step l (run_reader l killed n)
  close_write : (l : Line) → l.writer_asleep ≡ false → Step l (run_close l true)
  close_read : (l : Line) → l.reader_asleep ≡ false → Step l (run_close l false)

pub data Reach (s : Line) : Line → Type 0 where
  here : Reach s s
  next : {t u : Line} → Reach s t → Step t u → Reach s u

pub record Inv (l : Line) : Type 0 where
  pub valid : IsValid l.pipe
  pub stream : l.got ++ (contents l.pipe ++ l.pending) ≡ l.offered
  pub writer : l.writer_asleep ≡ true → (used l.pipe ≡ pipe_size) × (l.pipe.readopen ≡ true)
  pub reader :
      l.reader_asleep ≡ true
      → (used l.pipe ≡ 0) × (l.pipe.writeopen ≡ true) × (l.pipe.readopen ≡ true)
