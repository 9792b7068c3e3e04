-- ===== src/File/Tests.antt =====
-- Runs of src/file.c at a concrete table, and the theorems about it applied to them.
use pinky_os.Prelude.{◌≡◌, true, false, [], ◌∷◌, arith}
use pinky_os.Outcome.{ok}
use pinky_os.File.{fd_none, fd_pipe, File, Table, put, fileclose, close_pipe}
use pinky_os.File.Counts.{IsCounted, fileclose_lem}

abbrev closed_file : File
closed_file = record {
  kind = fd_none;
  ref = 0;
  readable = false;
  writable = false;
  pipe = 0;
  ip = 0;
  off = 0;
}

-- Slot 0 is the write end of pipe 6, which one descriptor holds.
abbrev table : Table
table =
    put (λ i. closed_file) 0
      (record closed_file { kind = fd_pipe; ref = 1; writable = true; pipe = 6 })

table-IsCounted : IsCounted table (0 ∷ [])
table-IsCounted i h = ground arith

fileclose_lem_example :
    (t : Table) × (fileclose table 0 ≡ ok (close_pipe 6 true, t)) × IsCounted t []
fileclose_lem_example = fileclose_lem table (0 ∷ []) 0 table-IsCounted (omega arith) (omega arith)
