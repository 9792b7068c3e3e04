-- ===== src/Pipe/Tests.antt =====
-- Runs of src/pipe.c, and its theorems at concrete pipes.
use pinky_os.Prelude.{arith, ◌^◌, ◌-◌, ◌≡◌, refl, true, false, [], ◌∷◌, replicate}
use pinky_os.Pipe.{alloc, Pipe, broken, write_sleep, received, write, read}
use pinky_os.Pipe.Contents.{IsValid}
use pinky_os.Pipe.Queue.{Wrote, write_lem, Read, read_lem}
use pinky_os.Pipe.Traffic.{
  Line, start, run_writer, run_reader, call_write, call_read, here, next, Inv,
}
use pinky_os.Pipe.Stream.{start-Inv, Reach-Inv}

-- Both counters are about to wrap, and three bytes are held.
abbrev wrapping : Pipe
wrapping = record {
  buffer = replicate 512 7;
  nread = 2 ^ 32 - 2;
  nwrite = 1;
  readopen = true;
  writeopen = true;
}

abbrev filled : Pipe
filled = record wrapping { nwrite = 510 }

wrapping-IsValid : IsValid wrapping
wrapping-IsValid = record {
  room = refl;
  nread_uint = omega arith;
  nwrite_uint = omega arith;
  fits = omega arith;
}

round : (read (write wrapping (8 ∷ 9 ∷ [])).pipe false 9).result ≡ received (7 ∷ 7 ∷ 7 ∷ 8 ∷ 9 ∷ [])
unfolding read write
round = refl

full_sleeps : (write filled (8 ∷ [])).result ≡ write_sleep (8 ∷ [])
unfolding write
full_sleeps = refl

full_breaks : (write (record filled { readopen = false }) (8 ∷ [])).result ≡ broken (8 ∷ [])
unfolding write
full_breaks = refl

write_lem_example : Wrote wrapping (8 ∷ 9 ∷ []) (write wrapping (8 ∷ 9 ∷ []))
write_lem_example = write_lem (8 ∷ 9 ∷ []) wrapping-IsValid

read_lem_example : Read wrapping false 2 (read wrapping false 2)
read_lem_example = read_lem false 2 wrapping-IsValid

abbrev fresh : Line
fresh = start (replicate 512 0)

-- The reader sleeps on the empty pipe, and the writer's call wakes it.
abbrev asleep : Line
asleep = run_reader fresh false 4

abbrev offering : Line
offering = record asleep { offered = 5 ∷ 6 ∷ [] }

Reach-Inv_example : Inv (run_writer offering (5 ∷ 6 ∷ []))
unfolding alloc run_reader read
Reach-Inv_example = Reach-Inv (start-Inv (replicate 512 0) refl) (
    next (next here (call_read fresh false 4 refl refl)) (call_write asleep (5 ∷ 6 ∷ []) refl refl))
