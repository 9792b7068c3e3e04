-- ===== src/Log/Transaction.antt =====
-- A transaction of src/log.c as its callers in src/fs.c make it: each reads a sector, changes the
-- bytes, calls log_write and releases the buffer.
use pinky_os.Prelude.{
  ℕ, ◌+◌, ◌-◌, ◌^◌, ◌≤◌, ◌<◌, ◌≡◌, sym, ap, ◌∙◌, ◌≢◌, inl, inr, Bool, false, arith, leb, ◌==◌,
  if◌then◌else◌, eq_of_test, ne_of_test, test_of_ne, eq_self, Bool-cases, length, length-set,
}
use mathlib.Core.Path.{subst}
use pinky_os.Outcome.{ok}
use pinky_os.Ide.{Block, Disk, sector_at}
use pinky_os.Bio.{Store, bread, bwrite, brelse, fill, is_free}
use pinky_os.Bio.Slots.{has, count}
use pinky_os.Bio.Coherence.{visible}
use pinky_os.Bio.Get.{Got, bread_lem}
use pinky_os.Bio.Transfer.{Got-Holding, fill_lem}
use pinky_os.Bio.Rewrite.{Reads-ok, overlay, bread-Calm, fill-other}
use pinky_os.Bio.Mark.{marked, Pinned, Appended}
use pinky_os.Bio.Append.{append_lem, apart}
use pinky_os.Log.{Log, log_block, home, entry, log_write}
use pinky_os.Log.Install.{sector_at-set}
use pinky_os.Log.Entries.{Taken, next_n, entered, entry-Taken, home-entered, entered-Once}
use pinky_os.Log.Session.{alter, Txn, Txn-Calm, count_fill}

module _ {d0 : Disk} {lg : Log} {s : Store} (t : Txn d0 lg s) (few : lg.n ≤ 7) (k : ℕ)
    (low : k < lg.start) where
  -- The log block's buffer can be read while the first is held.
  read_second :
      (bytes : Block) (one : ℕ × Store) (m : ℕ)
      → Got s k one
      → m ≢ k
      → m < length s.disk
      → (two : ℕ × Store) × (bread (fill one.1 one.0 bytes) 1 m ≡ ok two)
        × Got (fill one.1 one.0 bytes) m two
  read_second bytes one m g ne range =
      let f = (fill_lem bytes (Got-Holding g)).0 in
      let free = t.free in
      let left = g.room in
      let same = count_fill one bytes one.1.mru in
      let filled = fill one.1 one.0 bytes in
      Reads-ok filled m (bread filled 1 m)
        (bread_lem filled m f.coherent (let size = ap length g.disk_kept in omega arith))
        (λ (i, h, p, b). elim (Bool-cases (i == one.0)) [
          | inl e ↦ ground (
            arith,
            ap (λ (x : ℕ). (filled.buf x).sector) (eq_of_test i one.0 e),
            eq_self one.0,
            g.sector,
          )
          | inr e ↦
              let ni = ne_of_test i one.0 e in
              ground (
                arith,
                fill-other one.1 one.0 i bytes ni,
                g.others i ni,
                t.idle i,
                ap (has i) g.mru_kept,
              )
        ])
        (omega arith)

  abbrev e : ℕ
  e = entry lg k 0 lg.n

  abbrev lb : ℕ
  lb = log_block lg e

  taken : Taken lg k e (next_n lg e)
  taken = entry-Taken lg k t.once

  home_is : (i : ℕ) → home (entered lg k) i ≡ (if i == e then k else home lg i)
  home_is i = home-entered lg k i t.entries (let b = taken.below in omega arith)

  -- `log_write` of the first buffer, by the pieces that it calls.
  log_write_is :
      (u : Store) (i l : ℕ) (two after between : Store)
      → (u.buf i).sector ≡ k
      → (u.buf i).dev ≡ 1
      → bread u 1 lb ≡ ok (l, two)
      → two.buf i ≡ u.buf i
      → bwrite (fill two l (u.buf i).bytes) l ≡ ok after
      → brelse after l ≡ ok between
      → log_write u lg i ≡ ok (entered lg k, marked between i)
  unfolding log_write
  log_write_is u i l two after between at dev r same w b =
      let room = t.capacity in
      let active = t.active in
      let g1 : leb 10 lg.n ≡ false = ground arith in
      let g2 : leb (lg.size - 1) lg.n ≡ false = ground arith in
      rw (g1, g2, active, at, dev, r, same, w, b)

  -- What the change leaves, before the log's fields are looked at.
  altered :
      (change : Block → Block)
      → (t' : Store) × (alter s lg 1 k change ≡ ok (entered lg k, t'))
        × Appended s k lb (change (visible s k)) t'
  unfolding alter
  altered change =
      let room = t.room in
      let b = taken.below in
      let (one, e1, g) = bread-Calm {s = s} {k = k} (Txn-Calm t (omega arith)) (omega arith) in
      let bytes = change (visible s k) in
      let (two, e2, h) = read_second bytes one lb g (λ p. omega arith) (omega arith) in
      let (w, r1, r2, a) = append_lem bytes t.coherent t.idle g h in
      let filled = fill one.1 one.0 bytes in
      let fb : (filled.buf one.0).bytes ≡ bytes = rw (eq_self one.0) in
      let fs : (filled.buf one.0).sector ≡ k = (rw (eq_self one.0) g.sector) in
      let fd : (filled.buf one.0).dev ≡ 1 = (rw (eq_self one.0) g.dev) in
      let lw =
        log_write_is filled one.0 two.0 two.1 _ _ fs fd e2
          (h.others one.0 (apart bytes t.coherent t.idle g h))
          (ap (λ (x : Block). bwrite (fill two.1 two.0 x) two.0) fb ∙ w) r1 in
      (_, rw (e1, g.bytes, lw, r2), a)

  -- The transaction goes on, with the entry for the sector.
  module _ (small : k < 2 ^ 32) (bytes : Block) (t' : Store) (a : Appended s k lb bytes t') where
    disk_at : (j : ℕ) → sector_at t'.disk j ≡ overlay (sector_at s.disk) lb bytes j
    disk_at j =
        ap (λ (d : Disk). sector_at d j) a.disk
        ∙ sector_at-set s.disk lb j bytes (let room = t.room in let b = taken.below in omega arith)

    sees_low : (j : ℕ) → j < lg.start → visible t' j ≡ overlay (visible s) k bytes j
    sees_low j h = ground (arith, a.view j)

    sees_high : (j : ℕ) → lg.start ≤ j → visible t' j ≡ overlay (visible s) lb bytes j
    sees_high j h = ground (arith, a.view j)

    home_own : home (entered lg k) e ≡ k
    home_own = home_is e ∙ rw (eq_self e)

    home_other : (i : ℕ) → i ≢ e → home (entered lg k) i ≡ home lg i
    home_other i ne = home_is i ∙ rw (test_of_ne i e ne)

    by_entry :
        {P : ℕ → Type 0}
        → P e
        → ((i : ℕ) → i < next_n lg e → i ≢ e → i < lg.n → home lg i ≢ k → P i)
        → (i : ℕ) → i < next_n lg e
        → P i
    by_entry {P} here there i h = elim (Bool-cases (i == e)) [
      | inl q ↦ subst P (sym (eq_of_test i e q)) here
      | inr q ↦ let ne = ne_of_test i e q in let o = taken.others i h ne in there i h ne o.0 o.1
    ]

    free_again : 10 ≤ count is_free t'.buf t'.mru + next_n lg e
    free_again = elim (Bool-cases (e == lg.n)) [
      | inl q ↦
          let n = taken.new (eq_of_test e lg.n q) in let r = a.room in let f = t.free in omega arith
      | inr q ↦
          let ne = ne_of_test e lg.n q in
          let (n, at) = taken.again ne in
          let b = taken.below in
          let r = a.room_again (subst (Pinned s) at (t.held e (omega arith))) in
          let f = t.free in omega arith
    ]

    pub goes_on : Txn d0 (entered lg k) t'
    goes_on = record {
      coherent = a.coherent;
      idle = a.idle;
      free = free_again;
      dev = t.dev;
      active = t.active;
      capacity = t.capacity;
      room =
          (let l = ap length a.disk ∙ length-set s.disk lb bytes in let r = t.room in omega arith);
      entries = length-set lg.sectors e k ∙ t.entries;
      homes =
          by_entry {P = λ i. home (entered lg k) i < lg.start} (let h = home_own in omega arith)
            (λ i h ne old far. let o = home_other i ne in let x = t.homes i old in omega arith);
      words = λ i. let h = home_is i in let w = t.words i in ground (arith, h);
      once = entered-Once lg k t.entries (omega arith) t.once;
      held =
          by_entry {P = λ i. Pinned t' (home (entered lg k) i)}
            (subst (Pinned t') (sym home_own) a.pinned)
            (λ i h ne old far.
              subst (Pinned t') (sym (home_other i ne))
                (a.kept (home lg i) (λ p. let x = t.homes i old in omega arith) (t.held i old)));
      logged =
          by_entry
            {P = λ i. sector_at t'.disk (log_block lg i) ≡ visible t' (home (entered lg k) i)}
            (disk_at lb
              ∙ ap (λ (c : Bool). if c then bytes else sector_at s.disk lb) (eq_self lb)
              ∙ sym (
                  ap (visible t') home_own
                  ∙ sees_low k low
                  ∙ ap (λ (c : Bool). if c then bytes else visible s k) (eq_self k)))
            (λ i h ne old far.
              disk_at (log_block lg i)
              ∙ ap (λ (c : Bool). if c then bytes else sector_at s.disk (log_block lg i))
                  (test_of_ne (log_block lg i) lb (λ p. ne (omega arith)))
              ∙ t.logged i old
              ∙ sym (
                  ap (visible t') (home_other i ne)
                  ∙ sees_low (home lg i) (t.homes i old)
                  ∙ ap (λ (c : Bool). if c then bytes else visible s (home lg i))
                      (test_of_ne (home lg i) k far)));
      log_seen = λ j h.
          sees_high j h
          ∙ ap (λ (x : Block). if j == lb then bytes else x) (t.log_seen j h)
          ∙ sym (disk_at j);
      below = λ j h.
          disk_at j
          ∙ ap (λ (c : Bool). if c then bytes else sector_at s.disk j)
              (test_of_ne j lb (λ p. omega arith))
          ∙ t.below j h;
      size = ap length a.disk ∙ length-set s.disk lb bytes ∙ t.size;
      rest = λ j h far.
          let c = taken.counted in
          let nk : j ≢ k = (λ p. far e c (home_own ∙ sym p)) in
          let old : (i : ℕ) → i < lg.n → home lg i ≢ j = (λ i hi p. elim (Bool-cases (i == e)) [
            | inl q ↦
                let same = eq_of_test i e q in
                nk (sym p ∙ ap (home lg) same ∙ (taken.again (λ z. omega arith)).1)
            | inr q ↦
                far i (let g = taken.grows in omega arith) (home_other i (ne_of_test i e q) ∙ p)
          ]) in
          sees_low j h
          ∙ ap (λ (c : Bool). if c then bytes else visible s j) (test_of_ne j k nk)
          ∙ t.rest j h old
          ∙ sym (
              disk_at j
              ∙ ap (λ (c : Bool). if c then bytes else sector_at s.disk j)
                  (test_of_ne j lb (λ p. omega arith)));
    }

  -- In a transaction of at most seven sectors, a sector below the log is read, changed and logged:
  -- the calls return, the transaction goes on with at most one sector more, the sector is seen
  -- changed, and the others below the log as before.
  pub alter_lem :
      (change : Block → Block)
      → k < 2 ^ 32
      → (t' : Store) × (alter s lg 1 k change ≡ ok (entered lg k, t'))
        × Txn d0 (entered lg k) t'
        × ((entered lg k).n ≤ lg.n + 1)
        × ((j : ℕ) → j < lg.start → visible t' j ≡ overlay (visible s) k (change (visible s k)) j)
  alter_lem change small =
      let (t', r, a) = altered change in
      (
        t',
        r,
        goes_on small (change (visible s k)) t' a,
        ground arith,
        sees_low small (change (visible s k)) t' a,
      )
