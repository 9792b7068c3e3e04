-- ===== src/Vm/Store.antt =====
-- An entry of a page that mappages of src/vm.c writes: no other page changes.
use pinky_os.Prelude.{
  ℕ, ◌+◌, ◌*◌, ◌/◌, ◌%◌, ◌^◌, ◌≤◌, ◌<◌, ◌≡◌, sym, ap, ◌∙◌, ◌≢◌, inl, inr, Bool, true, ◌&&◌, List,
  arith, ◌==◌, if◌then◌else◌, eq_of_test, ne_of_test, test_of_ne, Bool-cases, length,
}
use mathlib.Core.Path.{subst}
use pinky_os.Vm.{Vm, is_on, entry_table, put_word, pgd_idx, pmd_idx, pte_idx}
use pinky_os.Vm.Tables.{IsTable, mid, has_mid, low_entry, low, has_low, page_at, Shaped, word_in}
use pinky_os.Vm.Walk.{page, Walked}

-- A page entry is written.
module _ {word : ℕ → ℕ} {runs : List ℕ} {pgdir : ℕ} {role : ℕ → ℕ} (s : Shaped word runs pgdir role)
    (i j k v : ℕ) (lt : i < 4) (ltj : j < 512) (ltk : k < 512) (on : has_mid word pgdir i ≡ true)
    (on2 : has_low word pgdir i j ≡ true) where
  abbrev a : ℕ
  a = low word pgdir i j + 8 * k

  abbrev w : ℕ → ℕ
  w x = if x == a then v else word x

  here : IsTable (low word pgdir i j) × (role (low word pgdir i j / 4096) ≡ 8 + 512 * i + j)
  here = s.lows i j lt ltj on on2

  not_a : (T m : ℕ) → IsTable T → m < 512 → role (T / 4096) ≢ 8 + 512 * i + j → T + 8 * m ≢ a
  not_a T m h ltm r p = r (
      ap role (
        sym (word_in T m h ltm)
        ∙ ap (λ (x : ℕ). x / 4096) p
        ∙ word_in (low word pgdir i j) k here.0 ltk)
      ∙ here.1)

  kept :
      (T m : ℕ)
      → IsTable T
      → m < 512
      → role (T / 4096) ≢ 8 + 512 * i + j
      → w (T + 8 * m) ≡ word (T + 8 * m)
  kept T m h ltm r = rw (test_of_ne (T + 8 * m) a (not_a T m h ltm r))

  mid_kept : (i' : ℕ) → i' < 4 → w (pgdir + 8 * i') ≡ word (pgdir + 8 * i')
  mid_kept i' l = kept pgdir i' s.root.0 (omega arith) (λ p. let r = s.root.1 in omega arith)

  low_kept :
      (i' j' : ℕ)
      → i' < 4
      → j' < 512
      → has_mid word pgdir i' ≡ true
      → w (low_entry w pgdir i' j') ≡ word (low_entry word pgdir i' j')
  low_kept i' j' l l2 o =
      let (table, r) = s.mids i' l o in
      ap (λ (x : ℕ). w (entry_table x + 8 * j')) (mid_kept i' l)
      ∙ kept (mid word pgdir i') j' table l2 (λ p. omega arith)

  pub stored-Shaped : Shaped w runs pgdir role
  stored-Shaped = record {
    root = s.root;
    mids = λ i' l o.
        subst (λ x. IsTable (entry_table x) × (role (entry_table x / 4096) ≡ 2 + i'))
          (sym (mid_kept i' l)) (s.mids i' l (sym (ap is_on (mid_kept i' l)) ∙ o));
    lows = λ i' j' l l2 o o2.
        let o' = sym (ap is_on (mid_kept i' l)) ∙ o in
        let same = low_kept i' j' l l2 o' in
        subst (λ x. IsTable (entry_table x) × (role (entry_table x / 4096) ≡ 8 + 512 * i' + j'))
          (sym same) (s.lows i' j' l l2 o' (sym (ap is_on same) ∙ o2));
    free = s.free;
    distinct = s.distinct;
  }

  pub stored-page_at :
      (i' j' k' : ℕ)
      → i' < 4
      → j' < 512
      → k' < 512
      → page_at w pgdir i' j' k'
        ≡ (if i' == i && (j' == j && k' == k) then v else page_at word pgdir i' j' k')
  unfolding page_at
  stored-page_at i' j' k' l l2 l3 =
      let same = mid_kept i' l in
      elim (Bool-cases (has_mid word pgdir i')) [
        | inr o ↦
            rw (ap is_on same ∙ o, o)
              (let e = ap (has_mid word pgdir) {x = i'} {y = i} in ground arith)
        | inl o ↦
            let same2 = low_kept i' j' l l2 o in
            elim (Bool-cases (has_low word pgdir i' j')) [
              | inr o2 ↦
                  rw (ap is_on same ∙ o, ap is_on same2 ∙ o2, o, o2)
                    (let e = λ (p : i' ≡ i) (q : j' ≡ j).
                        sym o2
                        ∙ ap (λ (x : ℕ). has_low word pgdir x j') p
                        ∙ ap (has_low word pgdir i) q
                        ∙ on2 in
                      ground arith)
              | inl o2 ↦
                  let (table, r) = s.lows i' j' l l2 o o2 in
                  let there = ap (λ (x : ℕ). w (entry_table x + 8 * k')) same2 in
                  rw (ap is_on same ∙ o, ap is_on same2 ∙ o2, o, o2)
                    (there ∙ at_word i' j' k' l l2 l3 table r)
            ]
      ]
    where
      at_word :
          (i' j' k' : ℕ)
          → i' < 4
          → j' < 512
          → k' < 512
          → IsTable (low word pgdir i' j')
          → role (low word pgdir i' j' / 4096) ≡ 8 + 512 * i' + j'
          → w (low word pgdir i' j' + 8 * k')
            ≡ (if i' == i && (j' == j && k' == k) then v else word (low word pgdir i' j' + 8 * k'))
      at_word i' j' k' l l2 l3 table r = elim (Bool-cases (i' == i && j' == j)) [
        | inl q ↦
            let p : i' ≡ i = ground arith in
            let p2 : j' ≡ j = ground arith in
            let same : low word pgdir i' j' ≡ low word pgdir i j =
              (ap (λ (x : ℕ). low word pgdir x j') p ∙ ap (low word pgdir i) p2) in
            ground arith
        | inr q ↦ kept (low word pgdir i' j') k' table l3 (λ p. ground arith) ∙ ground arith
      ]

-- Addresses of one page have the same indices.
same_page :
    (va vb : ℕ)
    → va < 2 ^ 32
    → vb < 2 ^ 32
    → (pgd_idx vb == pgd_idx va && (pmd_idx vb == pmd_idx va && pte_idx vb == pte_idx va))
      ≡ (vb / 4096 == va / 4096)
same_page va vb h g = elim (Bool-cases (vb / 4096 == va / 4096)) [
  | inl e ↦
      let p = eq_of_test (vb / 4096) (va / 4096) e in
      let p1 : pgd_idx vb ≡ pgd_idx va = omega arith in
      let p2 : pmd_idx vb ≡ pmd_idx va = omega arith in
      let p3 : pte_idx vb ≡ pte_idx va = ap (λ (x : ℕ). x % 512) p in ground arith
  | inr e ↦
      let n = ne_of_test (vb / 4096) (va / 4096) e in
      let far : pgd_idx vb ≡ pgd_idx va → pmd_idx vb ≡ pmd_idx va → pte_idx vb ≢ pte_idx va =
        (λ p q r. n (omega arith)) in
      ground arith
]

-- The page of an address has been mapped.
pub record Stored (vm : Vm) (pgdir va v : ℕ) (vm' : Vm) : Type 0 where
  pub role : ℕ → ℕ
  pub shaped : Shaped vm'.word vm'.runs pgdir role
  pub pages :
      (vb : ℕ)
      → vb < 2 ^ 32
      → page vm' pgdir vb ≡ (if vb / 4096 == va / 4096 then v else page vm pgdir vb)
  pub room : length vm.runs ≤ length vm'.runs + 2
  pub bytes : vm'.byte ≡ vm.byte
  pub kmem : vm'.kmem ≡ vm.kmem

pub Walked-Stored :
    (vm vm' : Vm) (pgdir va a v : ℕ)
    → va < 2 ^ 32
    → Walked vm pgdir va a vm'
    → Stored vm pgdir va v (put_word vm' a v)
Walked-Stored vm vm' pgdir va a v range w =
    let i = pgd_idx va in
    let j = pmd_idx va in
    let k = pte_idx va in
    let place = low vm'.word pgdir i j + 8 * k in
    let at : place ≡ a = sym w.entry in
    subst (λ x. Stored vm pgdir va v (put_word vm' x v)) at
      (record {
        role = w.role;
        shaped =
            stored-Shaped w.shaped i j k v (omega arith) (omega arith) (omega arith) w.there
              w.there2;
        pages = λ vb h.
            stored-page_at w.shaped i j k v (omega arith) (omega arith) (omega arith) w.there
              w.there2 (pgd_idx vb) (pmd_idx vb) (pte_idx vb) (omega arith) (omega arith)
              (omega arith)
            ∙ ap (λ (b : Bool). if b then v else page vm' pgdir vb) (same_page va vb range h)
            ∙ ap (λ (x : ℕ). if vb / 4096 == va / 4096 then v else x) (w.pages vb);
        room = w.room;
        bytes = w.bytes;
        kmem = w.kmem;
      })

-- The entry that walkpgdir finds is that of the page.
pub Walked-page :
    (vm vm' : Vm) (pgdir va a : ℕ) → Walked vm pgdir va a vm' → vm'.word a ≡ page vm pgdir va
unfolding page_at
Walked-page vm vm' pgdir va a w =
    let p = w.pages va in
    let here : page vm' pgdir va ≡ vm'.word a =
      rw (w.there, w.there2) (ap vm'.word (sym w.entry)) in
    sym here ∙ p
