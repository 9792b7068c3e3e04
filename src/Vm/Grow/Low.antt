-- ===== src/Vm/Grow/Low.antt =====
-- A table of the third level that walkpgdir of src/vm.c adds: no page entry changes.
use pinky_os.Prelude.{
  ℕ, ◌+◌, ◌*◌, ◌/◌, ◌<◌, ◌≡◌, sym, ap, ◌∙◌, ◌≢◌, inl, inr, true, false, ◌&&◌, List, ◌∷◌, arith,
  ◌==◌, eq_of_test, ne_of_test, Bool-cases,
}
use mathlib.Core.Path.{subst}
use pinky_os.Vm.{is_on, entry_table, table_entry}
use pinky_os.Vm.Tables.{
  IsTable, mid, has_mid, low_entry, low, has_low, page_at, Shaped, entry_table-table_entry, word_in,
  word_eq, made,
}
use pinky_os.Vm.Grow.{
  new_table, in_new, in_old, given_old, given_new, free_again, zero_or, given, made-entry,
}

module _ {word : ℕ → ℕ} {runs : List ℕ} {pgdir t : ℕ} {role : ℕ → ℕ}
    (s : Shaped word (t ∷ runs) pgdir role) (i j : ℕ) (range : i < 4) (rangej : j < 512)
    (on : has_mid word pgdir i ≡ true) (off : has_low word pgdir i j ≡ false) where
  abbrev e2 : ℕ
  e2 = low_entry word pgdir i j

  abbrev w2 : ℕ → ℕ
  w2 = made word t e2 (table_entry t)

  mid_is : IsTable (mid word pgdir i) × (role (mid word pgdir i / 4096) ≡ 2 + i)
  mid_is = s.mids i range on

  not_e2 : (T m : ℕ) → IsTable T → m < 512 → role (T / 4096) ≢ 2 + i → T + 8 * m ≢ e2
  not_e2 T m h lt r p = r (
      ap role (
        sym (word_in T m h lt)
        ∙ ap (λ (x : ℕ). x / 4096) p
        ∙ word_in (mid word pgdir i) j mid_is.0 rangej)
      ∙ mid_is.1)

  pub mid_word2 : (i' : ℕ) → i' < 4 → w2 (pgdir + 8 * i') ≡ word (pgdir + 8 * i')
  mid_word2 i' lt =
      let (table, r) = s.root in
      in_old s e2 pgdir i' table (omega arith) (λ p. omega arith)
        (not_e2 pgdir i' table (omega arith) (λ p. omega arith))

  low_word2 :
      (i' j' : ℕ)
      → i' < 4
      → j' < 512
      → has_mid word pgdir i' ≡ true
      → low_entry word pgdir i' j' ≢ e2
      → w2 (low_entry w2 pgdir i' j') ≡ word (low_entry word pgdir i' j')
  low_word2 i' j' lt ltj o ne =
      let (table, r) = s.mids i' lt o in
      ap (λ (v : ℕ). w2 (entry_table v + 8 * j')) (mid_word2 i' lt)
      ∙ in_old s e2 (mid word pgdir i') j' table ltj (λ p. omega arith) ne

  other_entry :
      (i' j' : ℕ)
      → i' < 4
      → j' < 512
      → has_mid word pgdir i' ≡ true
      → ((i' ≡ i) → (j' ≡ j) → ⊥)
      → low_entry word pgdir i' j' ≢ e2
  other_entry i' j' lt ltj o ne p = elim (Bool-cases (i' == i)) [
    | inl q ↦
        let at = eq_of_test i' i q in
        let same = ap (λ (x : ℕ). mid word pgdir x) at in
        ne at (word_eq (mid word pgdir i) j' j (ap (λ (x : ℕ). x + 8 * j') (sym same) ∙ p))
    | inr q ↦
        let (table, r) = s.mids i' lt o in
        not_e2 (mid word pgdir i') j' table ltj (λ z. ne_of_test i' i q (omega arith)) p
  ]

  low_made : low w2 pgdir i j ≡ t
  low_made =
      ap (λ (v : ℕ). entry_table (w2 (entry_table v + 8 * j))) (mid_word2 i range)
      ∙ ap entry_table (made-entry word t e2 (table_entry t))
      ∙ (entry_table-table_entry t (new_table s e2).0).0

  pub grow_low : Shaped w2 runs pgdir (given role (t / 4096) (8 + 512 * i + j))
  grow_low = record {
    root = (
      s.root.0,
      given_old s e2 pgdir (8 + 512 * i + j) (λ p. let r = s.root.1 in omega arith) ∙ s.root.1,
    );
    mids = λ i' lt o.
        let same = mid_word2 i' lt in
        let (table, r) = s.mids i' lt (sym (ap is_on same) ∙ o) in
        subst
          (λ v.
            IsTable (entry_table v)
            × (given role (t / 4096) (8 + 512 * i + j) (entry_table v / 4096) ≡ 2 + i'))
          (sym same)
          (table, given_old s e2 (mid word pgdir i') (8 + 512 * i + j) (λ p. omega arith) ∙ r);
    lows = λ i' j' lt ltj o o2.
        let o' = sym (ap is_on (mid_word2 i' lt)) ∙ o in
        elim (Bool-cases (i' == i && j' == j)) [
          | inl q ↦
              let at : i' ≡ i = ground arith in
              let at2 : j' ≡ j = ground arith in
              let here : IsTable (low w2 pgdir i j)
                  × (given role (t / 4096) (8 + 512 * i + j) (low w2 pgdir i j / 4096)
                      ≡ 8 + 512 * i + j) =
                (subst
                  (λ T.
                    IsTable T
                    × (given role (t / 4096) (8 + 512 * i + j) (T / 4096) ≡ 8 + 512 * i + j))
                  (sym low_made) ((new_table s e2).0, given_new s e2 (8 + 512 * i + j))) in
              let here2 =
                subst
                  (λ y.
                    IsTable (low w2 pgdir i y)
                    × (given role (t / 4096) (8 + 512 * i + j) (low w2 pgdir i y / 4096)
                        ≡ 8 + 512 * i + y))
                  (sym at2) here in
              subst
                (λ x.
                  IsTable (low w2 pgdir x j')
                  × (given role (t / 4096) (8 + 512 * i + j) (low w2 pgdir x j' / 4096)
                      ≡ 8 + 512 * x + j'))
                (sym at) here2
          | inr q ↦
              let same =
                low_word2 i' j' lt ltj o' (other_entry i' j' lt ltj o' (λ a b. ground arith)) in
              let (table, r) = s.lows i' j' lt ltj o' (sym (ap is_on same) ∙ o2) in
              subst
                (λ v.
                  IsTable (entry_table v)
                  × (given role (t / 4096) (8 + 512 * i + j) (entry_table v / 4096)
                      ≡ 8 + 512 * i' + j'))
                (sym same)
                (
                  table,
                  given_old s e2 (low word pgdir i' j') (8 + 512 * i + j) (λ p. omega arith) ∙ r,
                )
        ];
    free = free_again s e2 (8 + 512 * i + j);
    distinct = s.distinct.1;
  }

  page_new : (k : ℕ) → k < 512 → w2 (low w2 pgdir i j + 8 * k) ≡ 0
  page_new k lt =
      let h = new_table s e2 in
      ap (λ (T : ℕ). w2 (T + 8 * k)) low_made
      ∙ in_new s e2 k lt (not_e2 t k h.0 lt (λ p. let z = h.1 in omega arith))

  pub grow_low-page_at :
      (i' j' k : ℕ)
      → i' < 4
      → j' < 512
      → k < 512
      → page_at w2 pgdir i' j' k ≡ page_at word pgdir i' j' k
  unfolding page_at
  grow_low-page_at i' j' k lt ltj ltk =
      let same = mid_word2 i' lt in
      elim (Bool-cases (has_mid word pgdir i')) [
        | inr o ↦ rw (ap is_on same ∙ o, o)
        | inl o ↦ elim (Bool-cases (i' == i && j' == j)) [
          | inl q ↦
              let at : i' ≡ i = ground arith in
              let at2 : j' ≡ j = ground arith in
              let zero_now : w2 (low w2 pgdir i' j' + 8 * k) ≡ 0 =
                (ap (λ (x : ℕ). w2 (low w2 pgdir x j' + 8 * k)) at
                  ∙ ap (λ (y : ℕ). w2 (low w2 pgdir i y + 8 * k)) at2
                  ∙ page_new k ltk) in
              let none_then : has_low word pgdir i' j' ≡ false =
                (ap (λ (x : ℕ). has_low word pgdir x j') at
                  ∙ ap (λ (y : ℕ). has_low word pgdir i y) at2
                  ∙ off) in
              zero_or (has_mid w2 pgdir i' && has_low w2 pgdir i' j') (has_mid word pgdir i')
                (has_low word pgdir i' j') _ _ zero_now none_then
          | inr q ↦
              let same2 =
                low_word2 i' j' lt ltj o (other_entry i' j' lt ltj o (λ a b. ground arith)) in
              elim (Bool-cases (has_low word pgdir i' j')) [
                | inr o2 ↦ rw (ap is_on same ∙ o, ap is_on same2 ∙ o2, o, o2)
                | inl o2 ↦
                    let (table, r) = s.lows i' j' lt ltj o o2 in
                    rw (ap is_on same ∙ o, ap is_on same2 ∙ o2, o, o2)
                      (ap (λ (v : ℕ). w2 (entry_table v + 8 * k)) same2
                        ∙ in_old s e2 (low word pgdir i' j') k table ltk (λ p. omega arith)
                            (not_e2 (low word pgdir i' j') k table ltk (λ p. omega arith)))
              ]
        ]
      ]
