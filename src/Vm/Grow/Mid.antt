-- ===== src/Vm/Grow/Mid.antt =====
-- A table of the second level that walkpgdir of src/vm.c adds: no page entry changes.
use pinky_os.Prelude.{
  ℕ, ◌+◌, ◌*◌, ◌/◌, ◌<◌, ◌≡◌, sym, ap, ◌∙◌, ◌≢◌, inl, inr, true, false, List, ◌∷◌, arith, ◌==◌,
  eq_of_test, ne_of_test, Bool-cases,
}
use mathlib.Core.Path.{subst}
use pinky_os.Vm.{is_on, entry_table, table_entry}
use pinky_os.Vm.Tables.{
  IsTable, mid, has_mid, low_entry, low, has_low, page_at, Shaped, entry_table-table_entry, word_in,
  word_eq, made,
}
use pinky_os.Vm.Grow.{
  new_table, in_new, in_old, given_old, given_new, free_again, both_off, given, made-entry,
}

module _ {word : ℕ → ℕ} {runs : List ℕ} {pgdir t : ℕ} {role : ℕ → ℕ}
    (s : Shaped word (t ∷ runs) pgdir role) (i : ℕ) (range : i < 4)
    (off : has_mid word pgdir i ≡ false) where
  abbrev e : ℕ
  e = pgdir + 8 * i

  abbrev w : ℕ → ℕ
  w = made word t e (table_entry t)

  root_role : role (pgdir / 4096) ≢ 0
  root_role p = let r = s.root.1 in omega arith

  -- The entry is not in the new table, and in none of the second level.
  e_frame : e / 4096 ≡ pgdir / 4096
  e_frame = word_in pgdir i s.root.0 (omega arith)

  not_e : (T m : ℕ) → IsTable T → m < 512 → role (T / 4096) ≢ 1 → T + 8 * m ≢ e
  not_e T m h lt r p =
      r (ap role (sym (word_in T m h lt) ∙ ap (λ (x : ℕ). x / 4096) p ∙ e_frame) ∙ s.root.1)

  mid_new : mid w pgdir i ≡ t
  mid_new =
      ap entry_table (made-entry word t e (table_entry t))
      ∙ (entry_table-table_entry t (new_table s e).0).0

  mid_word : (i' : ℕ) → i' < 4 → i' ≢ i → w (pgdir + 8 * i') ≡ word (pgdir + 8 * i')
  mid_word i' lt ne =
      in_old s e pgdir i' s.root.0 (omega arith) root_role (λ p. ne (word_eq pgdir i' i p))

  low_new : (j : ℕ) → j < 512 → has_low w pgdir i j ≡ false
  low_new j lt =
      let h = new_table s e in
      ap (λ (T : ℕ). is_on (w (T + 8 * j))) mid_new
      ∙ ap is_on (in_new s e j lt (not_e t j h.0 lt (λ p. let z = h.1 in omega arith)))

  -- The words of the other tables of the second level, and of the third.
  low_word :
      (i' j : ℕ)
      → i' < 4
      → i' ≢ i
      → j < 512
      → has_mid word pgdir i' ≡ true
      → w (low_entry w pgdir i' j) ≡ word (low_entry word pgdir i' j)
  low_word i' j lt ne ltj on =
      let (table, r) = s.mids i' lt on in
      ap (λ (v : ℕ). w (entry_table v + 8 * j)) (mid_word i' lt ne)
      ∙ in_old s e (mid word pgdir i') j table ltj (λ p. omega arith)
          (not_e (mid word pgdir i') j table ltj (λ p. omega arith))

  pub grow_mid : Shaped w runs pgdir (given role (t / 4096) (2 + i))
  grow_mid = record {
    root = (s.root.0, given_old s e pgdir (2 + i) root_role ∙ s.root.1);
    mids = λ i' lt on. elim (Bool-cases (i' == i)) [
      | inl q ↦
          let at = eq_of_test i' i q in
          subst
            (λ x.
              IsTable (mid w pgdir x)
              × (given role (t / 4096) (2 + i) (mid w pgdir x / 4096) ≡ 2 + x))
            (sym at)
            (subst (λ T. IsTable T × (given role (t / 4096) (2 + i) (T / 4096) ≡ 2 + i))
              (sym mid_new) ((new_table s e).0, given_new s e (2 + i)))
      | inr q ↦
          let ne = ne_of_test i' i q in
          let same = mid_word i' lt ne in
          let (table, r) = s.mids i' lt (sym (ap is_on same) ∙ on) in
          subst
            (λ v.
              IsTable (entry_table v)
              × (given role (t / 4096) (2 + i) (entry_table v / 4096) ≡ 2 + i'))
            (sym same) (table, given_old s e (mid word pgdir i') (2 + i) (λ p. omega arith) ∙ r)
    ];
    lows = λ i' j lt ltj on on2. elim (Bool-cases (i' == i)) [
      | inl q ↦ absurd (
          ground
            (arith, low_new j ltj, on2, ap (λ (x : ℕ). has_low w pgdir x j) (eq_of_test i' i q)))
      | inr q ↦
          let ne = ne_of_test i' i q in
          let on' = sym (ap is_on (mid_word i' lt ne)) ∙ on in
          let same = low_word i' j lt ne ltj on' in
          let (table, r) = s.lows i' j lt ltj on' (sym (ap is_on same) ∙ on2) in
          subst
            (λ v.
              IsTable (entry_table v)
              × (given role (t / 4096) (2 + i) (entry_table v / 4096) ≡ 8 + 512 * i' + j))
            (sym same) (table, given_old s e (low word pgdir i' j) (2 + i) (λ p. omega arith) ∙ r)
    ];
    free = free_again s e (2 + i);
    distinct = s.distinct.1;
  }

  -- The entries of pages are as they were.
  pub grow_mid-page_at :
      (i' j k : ℕ) → i' < 4 → j < 512 → k < 512 → page_at w pgdir i' j k ≡ page_at word pgdir i' j k
  unfolding page_at
  grow_mid-page_at i' j k lt ltj ltk = elim (Bool-cases (i' == i)) [
    | inl q ↦
        let at = eq_of_test i' i q in
        let none_now = ap (λ (x : ℕ). has_low w pgdir x j) at ∙ low_new j ltj in
        let none_then = ap (λ (x : ℕ). has_mid word pgdir x) at ∙ off in
        both_off (has_mid w pgdir i') (has_low w pgdir i' j) (has_mid word pgdir i')
          (has_low word pgdir i' j) _ _ none_now none_then
    | inr q ↦
        let ne = ne_of_test i' i q in
        let same = mid_word i' lt ne in
        elim (Bool-cases (has_mid word pgdir i')) [
          | inr o ↦ rw (ap is_on same ∙ o, o)
          | inl o ↦
              let same2 = low_word i' j lt ne ltj o in
              elim (Bool-cases (has_low word pgdir i' j)) [
                | inr o2 ↦ rw (ap is_on same ∙ o, ap is_on same2 ∙ o2, o, o2)
                | inl o2 ↦
                    let (table, r) = s.lows i' j lt ltj o o2 in
                    rw (ap is_on same ∙ o, ap is_on same2 ∙ o2, o, o2)
                      (ap (λ (v : ℕ). w (entry_table v + 8 * k)) same2
                        ∙ in_old s e (low word pgdir i' j) k table ltk (λ p. omega arith)
                            (not_e (low word pgdir i' j) k table ltk (λ p. omega arith)))
              ]
        ]
  ]
