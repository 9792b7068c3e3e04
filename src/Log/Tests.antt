-- ===== src/Log/Tests.antt =====
-- Runs of src/log.c at concrete disks, and the theorems about it applied to them.
use pinky_os.Prelude.{
  ◌≤◌, ◌≢◌, set, Bool, ◌+◌, ℕ, zero, suc, ◌<◌, ◌≡◌, refl, ap, ◌∙◌, true, false, [], ◌∷◌, arith,
  length, replicate, length-replicate,
}
use pinky_os.Outcome.{Outcome, ok, panic, waits}
use pinky_os.Ide.{Block, Disk, sector_at, iderw}
use pinky_os.Bio.{Store, binit, bread, bget, find, last_free, validate, sync, bwrite, brelse}
use pinky_os.Bio.Coherence.{visible, binit-IsCoherent}
use pinky_os.Bio.Rewrite.{Calm}
use pinky_os.Ints.{int_at}
use pinky_os.Log.{log_write, Log, log_block, home, commit_trans, install_from, write_head, recover}
use pinky_os.Log.Install.{installed, Fits}
use pinky_os.Log.Redo.{binit-Calm}
use pinky_os.Log.Crash.{Ready, Restarted, crash-recover, Passes, commit_lem}
use pinky_os.Log.Atomic.{Changes, alter_all}

abbrev zeros : Block
zeros = replicate 512 0

-- Eight sectors: the log's header is sector 4, and its first block, sector 5, is for sector 2.
abbrev image : Disk
image = zeros ∷ zeros ∷ zeros ∷ zeros ∷ zeros ∷ (7 ∷ []) ∷ zeros ∷ zeros ∷ []

abbrev pending : Log
pending = record { start = 4; size = 3; busy = true; dev = 1; n = 1; sectors = 2 ∷ [] }

abbrev restarted : Log
restarted = record { start = 4; size = 3; busy = false; dev = 1; n = 0; sectors = replicate 10 0 }

home_low : (i : ℕ) → home pending i < 4
home_low zero = omega arith
home_low (suc i) = omega arith

pending-Fits : Fits pending 0 1 (length (binit image).disk)
unfolding binit
pending-Fits = record { dev = refl; room = omega arith; homes = λ i a b. home_low i }

image_kept :
    (i : ℕ)
    → sector_at image (log_block pending i) ≡ sector_at (binit image).disk (log_block pending i)
unfolding binit
image_kept i = refl

pending-Ready : Ready (binit image) pending
pending-Ready = record {
  calm = binit-Calm image;
  few = omega arith;
  fits = pending-Fits;
  words = λ i. (let h = home_low i in omega arith);
  head_whole = ap length ((binit-IsCoherent image).1 4) ∙ length-replicate {A = ℕ} 512 0;
  logged = λ i a b. (binit-IsCoherent image).1 (log_block pending i) ∙ image_kept i;
}

restarted-Restarted : Restarted pending restarted
restarted-Restarted = record { start = refl; dev = refl; room = refl }

crash-recover_example :
    (s1 s2 : Store) × (out : Log × Store) × (write_head (binit image) pending ≡ ok s1)
    × (install_from s1 pending 0 0 ≡ ok s2)
    × (recover (binit s2.disk) restarted ≡ ok out)
    × (out.0.n ≡ 0)
    × (int_at (sector_at out.1.disk 4) 0 ≡ 0)
    × ((k : ℕ) → k < 4 → visible out.1 k ≡ installed pending (sector_at (binit image).disk) 0 1 k)
crash-recover_example =
    crash-recover (binit image) pending restarted 0 pending-Ready restarted-Restarted (omega arith)

commit_lem_example :
    (t : Store) × (commit_trans (binit image) pending
      ≡ ok (record pending { n = 0; busy = false }, t))
    × Calm t
    × (int_at (sector_at t.disk 4) 0 ≡ 0)
    × ((i : ℕ) → i < 1 → int_at (sector_at t.disk 4) (i + 1) ≡ home pending i)
    × ((k : ℕ) → k ≢ 4 → visible t k ≡ installed pending (visible (binit image)) 0 1 k)
    × ((m : ℕ) → m ≤ 1 → Passes (binit image) pending m)
commit_lem_example = commit_lem (binit image) pending pending-Ready (omega arith)

-- A log of sector 4 on with room for ten blocks, in a transaction that has begun.
abbrev begun : Log
begun = record { start = 4; size = 11; busy = true; dev = 1; n = 0; sectors = replicate 10 0 }

abbrev wide : Disk
wide = replicate 16 zeros

abbrev changes : Changes
changes = (2, λ b. set b 0 7) ∷ (3, λ b. set b 1 8) ∷ (2, λ b. set b 5 9) ∷ []

-- A transaction may log ten sectors, but the cache runs out of buffers at the tenth: nine are dirty
-- then, and one holds the tenth sector, so that none is left for its block of the log.
abbrev touch : (k n : ℕ) → Changes
touch k zero = []
touch k (suc n) = (k, λ b. b) ∷ touch (k + 1) n

abbrev high : Log
high = record begun { start = 12 }

abbrev blank : Disk
blank = replicate 24 (1 ∷ [])

abbrev panics : Outcome (Log × Store) → Bool
panics (ok out) = false
panics waits = false
panics (panic m) = true

nine_changes : panics (alter_all (binit blank) high (touch 1 9)) ≡ false
unfolding alter_all bread bget find binit last_free validate sync iderw log_write bwrite brelse
nine_changes = refl

ten_changes : panics (alter_all (binit blank) high (touch 1 10)) ≡ true
unfolding alter_all bread bget find binit last_free validate sync iderw log_write bwrite brelse
ten_changes = refl
