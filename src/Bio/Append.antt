-- ===== src/Bio/Append.antt =====
-- A sector read and changed, its bytes written to another sector, and the first buffer left dirty:
-- what log_write of src/log.c and its callers do with the cache of src/bio.c.
use pinky_os.Prelude.{
  ℕ, ◌+◌, ◌≤◌, ◌≡◌, sym, ap, ◌∙◌, ◌≢◌, inl, inr, Bool, true, false, not, List, arith, ◌==◌,
  if◌then◌else◌, eq_of_test, ne_of_test, test_of_ne, eq_self, Bool-cases, set,
}
use mathlib.Core.Path.{subst}
use pinky_os.Outcome.{ok}
use pinky_os.Ide.{Block, Buf, sector_at}
use pinky_os.Bio.{Store, update, bwrite, brelse, fill, is_free}
use pinky_os.Bio.Slots.{has, count, count-update, count-remove, has-front}
use pinky_os.Bio.Coherence.{IsCoherent, visible}
use pinky_os.Bio.Get.{Got, one_or_zero}
use pinky_os.Bio.Transfer.{Holding, Got-Holding, Written, fill_lem, released, brelse_lem}
use pinky_os.Bio.Rewrite.{overlay, fill-other, count_mono, write_held, Written-settled}
use pinky_os.Bio.Mark.{marked, mark_lem, marked-released, Pinned, Appended}

-- The first buffer, changed, and the second, both held.
module _ {s : Store} {k m : ℕ} {one two : ℕ × Store} (bytes : Block) (coherent : IsCoherent s)
    (idle : (j : ℕ) → has j s.mru ≡ true → (s.buf j).busy ≡ false) (g : Got s k one)
    (h : Got (fill one.1 one.0 bytes) m two) where
  abbrev filled : Store
  filled = fill one.1 one.0 bytes

  first_held : Holding filled one.0
  first_held = (fill_lem bytes (Got-Holding g)).0

  pub apart : one.0 ≢ two.0
  apart e = ground (arith, h.was_idle, first_held.taken, ap filled.buf e)

  abbrev wrote :
      (u : Store) × (bwrite (fill two.1 two.0 bytes) two.0 ≡ ok u)
      × Written (fill two.1 two.0 bytes) two.0 u
      × (u.disk ≡ set filled.disk m bytes)
      × ((j : ℕ) → visible u j ≡ overlay (visible filled) m bytes j)
  wrote = write_held bytes h

  abbrev after : Store
  after = wrote.0

  mru_is : after.mru ≡ s.mru
  mru_is = wrote.2.mru_kept ∙ h.mru_kept ∙ g.mru_kept

  untouched : (j : ℕ) → j ≢ two.0 → after.buf j ≡ filled.buf j
  untouched j ne = wrote.2.others j ne ∙ fill-other two.1 two.0 j bytes ne ∙ h.others j ne

  settled :
      (after.buf two.0).dirty ≡ false
      → (after.buf two.0).bytes ≡ sector_at after.disk (after.buf two.0).sector
  settled clean = Written-settled (fill_lem bytes (Got-Holding h)).0 wrote.2

  abbrev between : Store
  between = released after two.0

  first_same : between.buf one.0 ≡ filled.buf one.0
  first_same = rw (test_of_ne one.0 two.0 apart) (untouched one.0 apart)

  between_held : Holding between one.0
  between_held = record {
    coherent = (brelse_lem wrote.2.holding settled).1;
    listed =
        has-front two.0 one.0 after.mru wrote.2.holding.listed
        ∙ ap (has one.0) (mru_is ∙ sym g.mru_kept)
        ∙ g.listed;
    taken = ap (λ (b : Buf). b.busy) first_same ∙ first_held.taken;
    valid = ap (λ (b : Buf). b.valid) first_same ∙ first_held.valid;
  }

  abbrev dirtied : Store
  dirtied = marked between one.0

  dirtied_held : Holding dirtied one.0
  dirtied_held = (mark_lem between_held).0

  dirtied_settled :
      (dirtied.buf one.0).dirty ≡ false
      → (dirtied.buf one.0).bytes ≡ sector_at dirtied.disk (dirtied.buf one.0).sector
  dirtied_settled clean = absurd (ground (arith, clean, eq_self one.0))

  abbrev final : Store
  final = released dirtied one.0

  member : (j : ℕ) → has j final.mru ≡ has j s.mru
  member j =
      has-front one.0 j dirtied.mru dirtied_held.listed
      ∙ has-front two.0 j after.mru wrote.2.holding.listed
      ∙ ap (has j) mru_is

  listing : (f : ℕ → Buf) → count is_free f final.mru ≡ count is_free f s.mru
  listing f =
      count-remove is_free f one.0 dirtied.mru dirtied_held.coherent.distinct dirtied_held.listed
      ∙ count-remove is_free f two.0 after.mru wrote.2.holding.coherent.distinct
          wrote.2.holding.listed
      ∙ ap (count is_free f) mru_is

  -- What the slots hold at the end.
  final_one : final.buf one.0 ≡ record (filled.buf one.0) { busy = false; dirty = true }
  final_one =
      marked-released between one.0
      ∙ ap (λ (b : Buf). record b { busy = false; dirty = true }) first_same

  final_two : final.buf two.0 ≡ record (after.buf two.0) { busy = false }
  final_two = rw (test_of_ne two.0 one.0 (λ e. apart (sym e)), eq_self two.0)

  final_other : (j : ℕ) → j ≢ one.0 → j ≢ two.0 → final.buf j ≡ s.buf j
  final_other j a b =
      rw (test_of_ne j one.0 a, test_of_ne j two.0 b)
        (untouched j b ∙ fill-other one.1 one.0 j bytes a ∙ g.others j a)

  filled_one : filled.buf one.0 ≡ record (one.1.buf one.0) { bytes = bytes }
  filled_one = rw (eq_self one.0)

  filled_two : filled.buf two.0 ≡ s.buf two.0
  filled_two =
      fill-other one.1 one.0 two.0 bytes (λ e. apart (sym e)) ∙ g.others two.0 (λ e. apart (sym e))

  final_idle : (j : ℕ) → has j final.mru ≡ true → (final.buf j).busy ≡ false
  final_idle j here = elim (Bool-cases (j == one.0)) [
    | inl e ↦
        ap (λ (i : ℕ). (final.buf i).busy) (eq_of_test j one.0 e)
        ∙ ap (λ (b : Buf). b.busy) final_one
    | inr e ↦ elim (Bool-cases (j == two.0)) [
      | inl e2 ↦
          ap (λ (i : ℕ). (final.buf i).busy) (eq_of_test j two.0 e2)
          ∙ ap (λ (b : Buf). b.busy) final_two
      | inr e2 ↦
          ap (λ (b : Buf). b.busy) (final_other j (ne_of_test j one.0 e) (ne_of_test j two.0 e2))
          ∙ idle j (sym (member j) ∙ here)
    ]
  ]

  final_pinned : Pinned final k
  final_pinned = (
    one.0,
    member one.0 ∙ sym (ap (has one.0) g.mru_kept) ∙ g.listed,
    ap (λ (b : Buf). b.dirty) final_one,
    ap (λ (b : Buf). b.dev) final_one ∙ ap (λ (b : Buf). b.dev) filled_one ∙ g.dev,
    ap (λ (b : Buf). b.sector) final_one ∙ ap (λ (b : Buf). b.sector) filled_one ∙ g.sector,
  )

  not_both : (b : Bool) → b ≡ true → b ≡ false → ⊥
  not_both b t f = ground arith

  -- The second buffer was not dirty, unless with its own sector.
  final_kept : (j : ℕ) → j ≢ m → Pinned s j → Pinned final j
  final_kept j ne (i, here, dirty, dev, sector) = elim (Bool-cases (i == one.0)) [
    | inl e ↦
        let at = eq_of_test i one.0 e in
        let same : j ≡ k = elim (Bool-cases (j == k)) [
          | inl q ↦ eq_of_test j k q
          | inr q ↦ absurd (
              not_both (s.buf i).dirty dirty (
                ap (λ (x : ℕ). (s.buf x).dirty) at
                ∙ g.evicts
                    (λ p. ne_of_test j k q (sym sector ∙ ap (λ (x : ℕ). (s.buf x).sector) at ∙ p))))
        ] in
        subst (Pinned final) (sym same) final_pinned
    | inr e ↦ elim (Bool-cases (i == two.0)) [
      | inl e2 ↦
          let at : s.buf i ≡ filled.buf two.0 =
            (ap s.buf (eq_of_test i two.0 e2) ∙ sym filled_two) in
          absurd (
            not_both (s.buf i).dirty dirty (
              ap (λ (b : Buf). b.dirty) at
              ∙ h.evicts (λ p. ne (sym sector ∙ ap (λ (b : Buf). b.sector) at ∙ p))))
      | inr e2 ↦
          let at = final_other i (ne_of_test i one.0 e) (ne_of_test i two.0 e2) in
          (
            i,
            member i ∙ here,
            ap (λ (b : Buf). b.dirty) at ∙ dirty,
            ap (λ (b : Buf). b.dev) at ∙ dev,
            ap (λ (b : Buf). b.sector) at ∙ sector,
          )
    ]
  ]

  -- A slot that was free is free again, but for the first.
  final_free : (j : ℕ) → j ≢ one.0 → is_free (s.buf j) ≡ true → is_free (final.buf j) ≡ true
  final_free j ne free = elim (Bool-cases (j == two.0)) [
    | inl e2 ↦
        ap (λ (i : ℕ). is_free (final.buf i)) (eq_of_test j two.0 e2)
        ∙ ap is_free final_two
        ∙ ap not wrote.2.clean
    | inr e2 ↦ ap is_free (final_other j ne (ne_of_test j two.0 e2)) ∙ free
  ]

  final_room : count is_free s.buf s.mru ≤ count is_free final.buf final.mru + 1
  final_room =
      let b = final.buf one.0 in
      let swap =
        count-update is_free s.buf one.0 b s.mru coherent.distinct
          (sym (ap (has one.0) g.mru_kept) ∙ g.listed) in
      let more = count_mono is_free (update s.buf one.0 b) final.buf s.mru (λ j here f.
        elim (Bool-cases (j == one.0)) [
          | inl e ↦
              ap (λ (i : ℕ). is_free (final.buf i)) (eq_of_test j one.0 e)
              ∙ sym (ap (λ (c : Bool). is_free (if c then b else s.buf j)) e)
              ∙ f
          | inr e ↦
              final_free j (ne_of_test j one.0 e)
                (sym (ap (λ (c : Bool). is_free (if c then b else s.buf j)) e) ∙ f)
        ]) in
      let same = listing final.buf in
      omega (arith, one_or_zero (is_free (s.buf one.0)), one_or_zero (is_free b))

  final_room_again : Pinned s k → count is_free s.buf s.mru ≤ count is_free final.buf final.mru
  final_room_again (i, here, dirty, dev, sector) =
      let at : i ≡ one.0 = elim (Bool-cases (i == one.0)) [
        | inl e ↦ eq_of_test i one.0 e
        | inr e ↦
            let same = g.others i (ne_of_test i one.0 e) in
            g.coherent.unique i one.0 (ap (has i) g.mru_kept ∙ here) g.listed
              (ap (λ (b : Buf). b.dev) same ∙ dev) g.dev
              (ap (λ (b : Buf). b.sector) same ∙ sector ∙ sym g.sector)
      ] in
      let more =
        count_mono is_free s.buf final.buf s.mru
          (λ j h f. final_free j (λ e. ground (arith, f, dirty, ap s.buf (e ∙ sym at))) f) in
      let same = listing final.buf in omega arith

  pub append_lem :
      (bwrite (fill two.1 two.0 bytes) two.0 ≡ ok after)
      × (brelse after two.0 ≡ ok between)
      × (brelse dirtied one.0 ≡ ok final)
      × Appended s k m bytes final
  append_lem =
      let r1 = brelse_lem wrote.2.holding settled in
      let r2 = brelse_lem dirtied_held dirtied_settled in
      let f = (fill_lem bytes (Got-Holding g)).1 in
      (
        wrote.1,
        r1.0,
        r2.0,
        record {
          coherent = r2.1;
          idle = final_idle;
          view = λ j.
              r2.2 j
              ∙ (mark_lem between_held).1 j
              ∙ r1.2 j
              ∙ wrote.4 j
              ∙ rw (f j, g.sector, g.seen j);
          disk = wrote.3 ∙ ap (λ (d : List Block). set d m bytes) g.disk_kept;
          pinned = final_pinned;
          kept = final_kept;
          room = final_room;
          room_again = final_room_again;
        },
      )
