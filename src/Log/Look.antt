-- ===== src/Log/Look.antt =====
-- A look at a sector in an open transaction of src/log.c.
use pinky_os.Prelude.{ℕ, ◌≤◌, ◌<◌, ◌≡◌, sym, ap, ◌∙◌, arith, length}
use pinky_os.Outcome.{ok}
use pinky_os.Ide.{Disk, sector_at}
use pinky_os.Bio.{Store, bread, brelse}
use pinky_os.Bio.Coherence.{visible}
use pinky_os.Bio.Rewrite.{bread-Calm}
use pinky_os.Bio.Look.{Looked, look_lem}
use pinky_os.Log.{Log, log_block, home}
use pinky_os.Log.Session.{Txn, Txn-Calm}

pub Looked-Txn : {d0 : Disk} {lg : Log} {s t : Store} → Txn d0 lg s → Looked s t → Txn d0 lg t
Looked-Txn {d0} {lg} {s} {t} x l =
    let at = λ (j : ℕ). ap (λ (d : Disk). sector_at d j) l.disk in
    record {
      coherent = l.coherent;
      idle = l.idle;
      free = (let f = x.free in let r = l.room in omega arith);
      dev = x.dev;
      active = x.active;
      capacity = x.capacity;
      room = (let size = ap length l.disk in let r = x.room in omega arith);
      entries = x.entries;
      homes = x.homes;
      words = x.words;
      once = x.once;
      held = λ i h. l.kept (home lg i) (x.held i h);
      logged = λ i h. at (log_block lg i) ∙ x.logged i h ∙ sym (l.view (home lg i));
      log_seen = λ k h. l.view k ∙ x.log_seen k h ∙ sym (at k);
      below = λ k h. at k ∙ x.below k h;
      size = ap length l.disk ∙ x.size;
      rest = λ k h far. l.view k ∙ x.rest k h far ∙ sym (at k);
    }

-- What `bread` gives in a transaction of at most eight sectors, and that after `brelse` the
-- transaction goes on.
pub look_at :
    {d0 : Disk} {lg : Log} {s : Store} (k : ℕ)
    → Txn d0 lg s
    → lg.n ≤ 8
    → k < lg.start
    → (out : ℕ × Store) × (t : Store) × (bread s 1 k ≡ ok out)
      × ((out.1.buf out.0).bytes ≡ visible s k)
      × (brelse out.1 out.0 ≡ ok t)
      × Txn d0 lg t
      × ((j : ℕ) → visible t j ≡ visible s j)
look_at {d0} {lg} {s} k x few low =
    let room = x.room in
    let (out, e, g) = bread-Calm {s = s} {k = k} (Txn-Calm x few) (omega arith) in
    let (r, l) = look_lem x.coherent x.idle g in (out, _, e, g.bytes, r, Looked-Txn x l, l.view)
