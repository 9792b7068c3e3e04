-- ===== src/Pipe/Stream.antt =====
-- No byte is lost, doubled or reordered in a pipe of src/pipe.c, and no wakeup is missed, whatever
-- the order in which its writer and its reader run.
use pinky_os.Prelude.{
  ℕ, ◌≡◌, refl, sym, ap, ◌∙◌, Bool, true, false, List, [], ◌++◌, append-nil, append_assoc, arith,
  length,
}
use pinky_os.Pipe.{
  Pipe, pipe_size, WriteStop, written, broken, write_sleep, ReadStop, received, interrupted,
  read_sleep, Called, write, read, close, alloc,
}
use pinky_os.Pipe.Contents.{IsValid, contents, used, length-contents, alloc-IsValid}
use pinky_os.Pipe.Queue.{Stopped, write_lem, delivered, Reason, Read, read_lem}
use pinky_os.Pipe.Traffic.{
  Line, start, writer_sleeps, reader_sleeps, run_writer, run_reader, run_close, Step, call_write,
  resume_write, call_read, close_write, close_read, Reach, here, next, Inv,
}

pub start-Inv : (bytes : List ℕ) → length bytes ≡ pipe_size → Inv (start bytes)
unfolding alloc
start-Inv bytes h = record {
  valid = alloc-IsValid bytes h;
  stream = refl;
  writer = λ e. cc;
  reader = λ e. cc;
}

asleep-full :
    (p : Pipe) (r : WriteStop)
    → Stopped p r
    → writer_sleeps r ≡ true
    → (used p ≡ pipe_size) × (p.readopen ≡ true)
asleep-full p written s e = cc
asleep-full p (broken bytes) s e = cc
asleep-full p (write_sleep bytes) s e = (s.0, s.1)

slept :
    (p : Pipe) (killed : Bool) (n : ℕ) (r : ReadStop)
    → Reason p killed n r
    → reader_sleeps r ≡ true
    → (delivered r ≡ []) × (used p ≡ 0) × (p.writeopen ≡ true)
slept p killed n (received bytes) h e = cc
slept p killed n interrupted h e = cc
slept p killed n read_sleep h e = (refl, h.0, h.1)

asleep-empty :
    (p : Pipe) (killed : Bool) (n : ℕ) (c : Called ReadStop)
    → Read p killed n c
    → reader_sleeps c.result ≡ true
    → (used c.pipe ≡ 0) × (c.pipe.writeopen ≡ true)
asleep-empty p killed n c r e =
    let (nothing, empty, open_end) = slept p killed n c.result r.reason e in
    let same : contents c.pipe ≡ contents p = rw nothing at r.queue in
    (
      omega (arith, ap length same, length-contents c.pipe, length-contents p, empty),
      r.writeopen_kept ∙ open_end,
    )

-- The writer's part of a step, at a line whose stream is whole once `bytes` are added.
run_writer-Inv :
    (l : Line) (bytes : List ℕ)
    → IsValid l.pipe
    → l.got ++ (contents l.pipe ++ bytes) ≡ l.offered
    → (l.reader_asleep ≡ true
        → (used l.pipe ≡ 0) × (l.pipe.writeopen ≡ true) × (l.pipe.readopen ≡ true))
    → Inv (run_writer l bytes)
unfolding run_writer
run_writer-Inv l bytes v s r =
    let c = write l.pipe bytes in
    let w = write_lem bytes v in
    record {
      valid = w.valid;
      stream = rw w.queue s;
      writer = asleep-full c.pipe c.result w.reason;
      reader = λ e. absurd (ground (arith, w.wakes, w.readopen_kept, r));
    }

run_reader-Inv :
    (l : Line) (killed : Bool) (n : ℕ)
    → Inv l
    → l.pipe.readopen ≡ true
    → Inv (run_reader l killed n)
unfolding run_reader
run_reader-Inv l killed n i o =
    let c = read l.pipe killed n in
    let r = read_lem killed n i.valid in
    record {
      valid = r.valid;
      stream =
          append_assoc l.got (delivered c.result) (contents c.pipe ++ l.pending)
          ∙ ap (λ q. l.got ++ q)
              (sym (append_assoc (delivered c.result) (contents c.pipe) l.pending)
                ∙ ap (λ q. q ++ l.pending) r.queue)
          ∙ i.stream;
      writer = λ e. absurd (ground (arith, r.wakes, i.writer));
      reader = λ e. let (a, b) = asleep-empty l.pipe killed n c r e in (a, b, r.readopen_kept ∙ o);
    }

close_write-Inv : (l : Line) → l.writer_asleep ≡ false → Inv l → Inv (run_close l true)
unfolding run_close close
close_write-Inv l awake i = record {
  valid = omega (arith, i.valid);
  stream = i.stream;
  writer = λ e. ground arith;
  reader = λ e. ground arith;
}

close_read-Inv : (l : Line) → l.reader_asleep ≡ false → Inv l → Inv (run_close l false)
unfolding run_close close
close_read-Inv l awake i = record {
  valid = omega (arith, i.valid);
  stream = i.stream;
  writer = λ e. ground arith;
  reader = λ e. ground arith;
}

Step-Inv : {l m : Line} → Step l m → Inv l → Inv m
Step-Inv (call_write l bytes idle awake) i =
    run_writer-Inv _ bytes i.valid
      (sym (append_assoc l.got (contents l.pipe) bytes)
        ∙ ap (λ q. q ++ bytes)
            (ap (λ q. l.got ++ q) (sym (append-nil (contents l.pipe))) ∙ rw idle at i.stream))
      i.reader
Step-Inv (resume_write l awake) i = run_writer-Inv l l.pending i.valid i.stream i.reader
Step-Inv (call_read l killed n awake o) i = run_reader-Inv l killed n i o
Step-Inv (close_write l awake) i = close_write-Inv l awake i
Step-Inv (close_read l awake) i = close_read-Inv l awake i

-- At every moment the bytes that the reader got, those in the pipe and those that the writer is
-- still to copy are, in this order, the bytes that the writer's calls were given; a writer is
-- asleep only while the pipe is full, and a reader only while it is empty, with the other end open.
pub Reach-Inv : {l m : Line} → Inv l → Reach l m → Inv m
Reach-Inv i here = i
Reach-Inv i (next r s) = Step-Inv s (Reach-Inv i r)
