-- ===== src/Bio/Look.antt =====
-- `bread` and `brelse` of src/bio.c around a mere look at a sector, in a cache with dirty buffers.
use pinky_os.Prelude.{
  ℕ, ◌≤◌, ◌≡◌, sym, ap, ◌∙◌, ◌≢◌, inl, inr, true, false, not, arith, ◌==◌, eq_of_test, ne_of_test,
  test_of_ne, eq_self, Bool-cases,
}
use pinky_os.Outcome.{ok}
use pinky_os.Ide.{Buf}
use pinky_os.Bio.{Store, brelse, is_free}
use pinky_os.Bio.Slots.{has, count, count-remove, has-front}
use pinky_os.Bio.Coherence.{IsCoherent, visible}
use pinky_os.Bio.Get.{Got}
use pinky_os.Bio.Transfer.{Got-Holding, released, brelse_lem}
use pinky_os.Bio.Rewrite.{count_mono, settled_at}
use pinky_os.Bio.Mark.{Pinned}

-- Nothing has changed but the order of the buffers, and what clean ones hold.
pub record Looked (s t : Store) : Type 0 where
  pub coherent : IsCoherent t
  pub idle : (j : ℕ) → has j t.mru ≡ true → (t.buf j).busy ≡ false
  pub view : (j : ℕ) → visible t j ≡ visible s j
  pub disk : t.disk ≡ s.disk
  pub kept : (j : ℕ) → Pinned s j → Pinned t j
  pub room : count is_free s.buf s.mru ≤ count is_free t.buf t.mru

module _ {s : Store} {k : ℕ} {out : ℕ × Store} (coherent : IsCoherent s)
    (idle : (j : ℕ) → has j s.mru ≡ true → (s.buf j).busy ≡ false) (g : Got s k out) where
  abbrev final : Store
  final = released out.1 out.0

  member : (j : ℕ) → has j final.mru ≡ has j s.mru
  member j = has-front out.0 j out.1.mru g.listed ∙ ap (has j) g.mru_kept

  final_one : final.buf out.0 ≡ record (out.1.buf out.0) { busy = false }
  final_one = rw (eq_self out.0)

  final_other : (j : ℕ) → j ≢ out.0 → final.buf j ≡ s.buf j
  final_other j ne = rw (test_of_ne j out.0 ne) (g.others j ne)

  final_idle : (j : ℕ) → has j final.mru ≡ true → (final.buf j).busy ≡ false
  final_idle j here = elim (Bool-cases (j == out.0)) [
    | inl e ↦
        ap (λ (i : ℕ). (final.buf i).busy) (eq_of_test j out.0 e)
        ∙ ap (λ (b : Buf). b.busy) final_one
    | inr e ↦
        ap (λ (b : Buf). b.busy) (final_other j (ne_of_test j out.0 e))
        ∙ idle j (sym (member j) ∙ here)
  ]

  final_free :
      (j : ℕ) → has j s.mru ≡ true → is_free (s.buf j) ≡ true → is_free (final.buf j) ≡ true
  final_free j here free = elim (Bool-cases (j == out.0)) [
    | inl e ↦
        let at = eq_of_test j out.0 e in
        ap (λ (i : ℕ). is_free (final.buf i)) at
        ∙ ap is_free final_one
        ∙ ap not g.dirty_kept
        ∙ ground (arith, free, ap (λ (i : ℕ). (s.buf i).dirty) at)
    | inr e ↦ ap is_free (final_other j (ne_of_test j out.0 e)) ∙ free
  ]

  final_kept : (j : ℕ) → Pinned s j → Pinned final j
  final_kept j (i, here, dirty, dev, sector) = elim (Bool-cases (i == out.0)) [
    | inl e ↦
        let at = eq_of_test i out.0 e in
        let was = sym (ap (λ (x : ℕ). (s.buf x).dirty) at) ∙ dirty in
        let same : k ≡ j = elim (Bool-cases (j == k)) [
          | inl q ↦ sym (eq_of_test j k q)
          | inr q ↦
              let clean =
                g.evicts
                  (λ p. ne_of_test j k q (sym sector ∙ ap (λ (x : ℕ). (s.buf x).sector) at ∙ p)) in
              absurd (ground (arith, was, clean))
        ] in
        (
          out.0,
          member out.0 ∙ sym (ap (has out.0) g.mru_kept) ∙ g.listed,
          ap (λ (b : Buf). b.dirty) final_one ∙ g.dirty_kept ∙ was,
          ap (λ (b : Buf). b.dev) final_one ∙ g.dev,
          ap (λ (b : Buf). b.sector) final_one ∙ g.sector ∙ same,
        )
    | inr e ↦
        let at = final_other i (ne_of_test i out.0 e) in
        (
          i,
          member i ∙ here,
          ap (λ (b : Buf). b.dirty) at ∙ dirty,
          ap (λ (b : Buf). b.dev) at ∙ dev,
          ap (λ (b : Buf). b.sector) at ∙ sector,
        )
  ]

  -- A buffer that has only been looked at is released.
  pub look_lem : (brelse out.1 out.0 ≡ ok final) × Looked s final
  look_lem =
      let r = brelse_lem (Got-Holding g) (settled_at coherent g) in
      (
        r.0,
        record {
          coherent = r.1;
          idle = final_idle;
          view = λ j. r.2 j ∙ g.seen j;
          disk = g.disk_kept;
          kept = final_kept;
          room =
              (let more = count_mono is_free s.buf final.buf s.mru final_free in
                let same =
                  count-remove is_free final.buf out.0 out.1.mru g.coherent.distinct g.listed
                  ∙ ap (count is_free final.buf) g.mru_kept in
                omega arith);
        },
      )
