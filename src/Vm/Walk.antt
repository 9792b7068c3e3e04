-- ===== src/Vm/Walk.antt =====
-- walkpgdir of src/vm.c: it finds the entry of a page, making the tables that are missing.
use pinky_os.Prelude.{
  ℕ, ◌+◌, ◌*◌, ◌/◌, ◌≤◌, ◌<◌, ◌≡◌, refl, sym, ap, ◌∙◌, inl, inr, Bool, true, false, some, List, [],
  ◌∷◌, arith, eq_self, Bool-cases, length,
}
use mathlib.Core.Path.{subst, fun_ext}
use pinky_os.Outcome.{ok}
use pinky_os.Vm.{
  Vm, is_on, entry_table, table_entry, put_word, clear_table, kpt_alloc, next_table, walkpgdir,
  pgd_idx, pmd_idx, pte_idx,
}
use pinky_os.Vm.Tables.{
  IsTable, mid, has_mid, low_entry, low, has_low, page_at, Shaped, entry_table-table_entry, made,
  clear_range,
}
use pinky_os.Vm.Grow.{given, made-entry}
use pinky_os.Vm.Grow.Mid.{grow_mid, grow_mid-page_at}
use pinky_os.Vm.Grow.Low.{mid_word2, grow_low, grow_low-page_at}

-- The entry of the page of an address, 0 where there is none.
abbrev pub page : Vm → (pgdir va : ℕ) → ℕ
page vm pgdir va = page_at vm.word pgdir (pgd_idx va) (pmd_idx va) (pte_idx va)

made_word :
    (vm : Vm) (t e : ℕ) (runs : List ℕ)
    → IsTable t
    → (put_word (clear_table (clear_table (record vm { runs = runs }) t) t) e (table_entry t)).word
      ≡ made vm.word t e (table_entry t)
made_word vm t e runs h = fun_ext λ x. (let r = clear_range t x h in ground (arith, r))

-- A table that is there is found, and one that is missing is taken off the free list.
pub next_table-on :
    (vm : Vm) (e : ℕ) (alloc : Bool)
    → is_on (vm.word e) ≡ true
    → next_table vm e alloc ≡ ok (some (entry_table (vm.word e)), vm)
unfolding next_table
next_table-on vm e alloc on = rw on

next_table-off :
    (vm : Vm) (e t : ℕ) (runs : List ℕ)
    → is_on (vm.word e) ≡ false
    → vm.runs ≡ t ∷ runs
    → next_table vm e true
      ≡ ok (
        some t,
        put_word (clear_table (clear_table (record vm { runs = runs }) t) t) e (table_entry t),
      )
unfolding next_table kpt_alloc
next_table-off vm e t runs off r = rw (off, r)

-- A table made or found at a level.
record Step (vm : Vm) (pgdir : ℕ) (vm' : Vm) : Type 0 where
  role : ℕ → ℕ
  shaped : Shaped vm'.word vm'.runs pgdir role
  pages :
      (i j k : ℕ)
      → i < 4
      → j < 512
      → k < 512
      → page_at vm'.word pgdir i j k ≡ page_at vm.word pgdir i j k
  room : length vm.runs ≤ length vm'.runs + 1
  bytes : vm'.byte ≡ vm.byte
  kmem : vm'.kmem ≡ vm.kmem

cons_of : (xs : List ℕ) → 1 ≤ length xs → (x : ℕ) × (rest : List ℕ) × (xs ≡ x ∷ rest)
cons_of [] h = absurd (omega arith)
cons_of (x ∷ rest) h = (x, rest, refl)

module _ (vm : Vm) (pgdir : ℕ) (role : ℕ → ℕ) (s : Shaped vm.word vm.runs pgdir role)
    (enough : 1 ≤ length vm.runs) where
  step_mid :
      (i : ℕ)
      → i < 4
      → (t : ℕ) × (vm' : Vm) × (next_table vm (pgdir + 8 * i) true ≡ ok (some t, vm'))
        × Step vm pgdir vm'
        × (has_mid vm'.word pgdir i ≡ true)
        × (mid vm'.word pgdir i ≡ t)
  step_mid i lt = elim (Bool-cases (has_mid vm.word pgdir i)) [
    | inl on ↦ (
      _,
      vm,
      next_table-on vm (pgdir + 8 * i) true on,
      record {
        role = role;
        shaped = s;
        pages = λ i j k a b c. refl;
        room = omega arith;
        bytes = refl;
        kmem = refl;
      },
      on,
      refl,
    )
    | inr off ↦
        let (t, runs, r) = cons_of vm.runs enough in
        let s' = subst (λ x. Shaped vm.word x pgdir role) r s in
        let table = (s'.free t (rw (eq_self t))).0 in
        let w = made_word vm t (pgdir + 8 * i) runs table in
        let at =
          ap (λ (f : ℕ → ℕ). f (pgdir + 8 * i)) w
          ∙ made-entry vm.word t (pgdir + 8 * i) (table_entry t) in
        let (back, on) = entry_table-table_entry t table in
        (
          t,
          _,
          next_table-off vm (pgdir + 8 * i) t runs off r,
          record {
            role = given role (t / 4096) (2 + i);
            shaped =
                subst (λ f. Shaped f runs pgdir (given role (t / 4096) (2 + i))) (sym w)
                  (grow_mid s' i lt off);
            pages = λ i' j k a b c.
                ap (λ (f : ℕ → ℕ). page_at f pgdir i' j k) w
                ∙ grow_mid-page_at s' i lt off i' j k a b c;
            room = (let l = ap length r in omega arith);
            bytes = refl;
            kmem = refl;
          },
          ap is_on at ∙ on,
          ap entry_table at ∙ back,
        )
  ]

  step_low :
      (i j : ℕ)
      → i < 4
      → j < 512
      → has_mid vm.word pgdir i ≡ true
      → (t : ℕ) × (vm' : Vm) × (next_table vm (low_entry vm.word pgdir i j) true ≡ ok (some t, vm'))
        × Step vm pgdir vm'
        × (has_mid vm'.word pgdir i ≡ true)
        × (has_low vm'.word pgdir i j ≡ true)
        × (low vm'.word pgdir i j ≡ t)
  step_low i j lt ltj there = elim (Bool-cases (has_low vm.word pgdir i j)) [
    | inl on ↦ (
      _,
      vm,
      next_table-on vm (low_entry vm.word pgdir i j) true on,
      record {
        role = role;
        shaped = s;
        pages = λ i j k a b c. refl;
        room = omega arith;
        bytes = refl;
        kmem = refl;
      },
      there,
      on,
      refl,
    )
    | inr off ↦
        let (t, runs, r) = cons_of vm.runs enough in
        let s' = subst (λ x. Shaped vm.word x pgdir role) r s in
        let table = (s'.free t (rw (eq_self t))).0 in
        let e = low_entry vm.word pgdir i j in
        let w = made_word vm t e runs table in
        let same =
          ap (λ (f : ℕ → ℕ). f (pgdir + 8 * i)) w ∙ mid_word2 s' i j lt ltj there off i lt in
        let at = ap (λ (f : ℕ → ℕ). f e) w ∙ made-entry vm.word t e (table_entry t) in
        let (back, on) = entry_table-table_entry t table in
        let f =
          (put_word (clear_table (clear_table (record vm { runs = runs }) t) t) e
            (table_entry t)).word in
        let at2 : f (low_entry f pgdir i j) ≡ table_entry t =
          (ap (λ (v : ℕ). f (entry_table v + 8 * j)) same ∙ at) in
        (
          t,
          _,
          next_table-off vm e t runs off r,
          record {
            role = given role (t / 4096) (8 + 512 * i + j);
            shaped =
                subst (λ f. Shaped f runs pgdir (given role (t / 4096) (8 + 512 * i + j))) (sym w)
                  (grow_low s' i j lt ltj there off);
            pages = λ i' j' k a b c.
                ap (λ (f : ℕ → ℕ). page_at f pgdir i' j' k) w
                ∙ grow_low-page_at s' i j lt ltj there off i' j' k a b c;
            room = (let l = ap length r in omega arith);
            bytes = refl;
            kmem = refl;
          },
          ap is_on same ∙ there,
          ap is_on at2 ∙ on,
          ap entry_table at2 ∙ back,
        )
  ]

-- What `walkpgdir` finds and leaves.
pub record Walked (vm : Vm) (pgdir va a : ℕ) (vm' : Vm) : Type 0 where
  pub role : ℕ → ℕ
  pub shaped : Shaped vm'.word vm'.runs pgdir role
  pub pages : (vb : ℕ) → page vm' pgdir vb ≡ page vm pgdir vb
  pub room : length vm.runs ≤ length vm'.runs + 2
  pub bytes : vm'.byte ≡ vm.byte
  pub kmem : vm'.kmem ≡ vm.kmem
  pub there : has_mid vm'.word pgdir (pgd_idx va) ≡ true
  pub there2 : has_low vm'.word pgdir (pgd_idx va) (pmd_idx va) ≡ true
  pub entry : a ≡ low vm'.word pgdir (pgd_idx va) (pmd_idx va) + 8 * pte_idx va

-- In page tables that share no table, and with two tables free, walkpgdir that may allocate finds the
-- place of the entry of any address; the tables still share none, and no page entry has changed.
pub walkpgdir_lem :
    (vm : Vm) (pgdir va : ℕ) (role : ℕ → ℕ)
    → Shaped vm.word vm.runs pgdir role
    → 2 ≤ length vm.runs
    → (a : ℕ) × (vm' : Vm) × (walkpgdir vm pgdir va true ≡ ok (some a, vm'))
      × Walked vm pgdir va a vm'
unfolding walkpgdir
walkpgdir_lem vm pgdir va role s enough =
    let (t1, vm1, e1, s1, on1, at1) =
      step_mid vm pgdir role s (omega arith) (pgd_idx va) (omega arith) in
    let r1 = s1.room in
    let (t2, vm2, e2, s2, on, on2, at2) =
      step_low vm1 pgdir s1.role s1.shaped (omega arith) (pgd_idx va) (pmd_idx va) (omega arith)
        (omega arith) on1 in
    let r2 = s2.room in
    let e2' : next_table vm1 (t1 + 8 * pmd_idx va) true ≡ ok (some t2, vm2) =
      (ap (λ (t : ℕ). next_table vm1 (t + 8 * pmd_idx va) true) (sym at1) ∙ e2) in
    (
      t2 + 8 * pte_idx va,
      vm2,
      rw (e1, e2'),
      record {
        role = s2.role;
        shaped = s2.shaped;
        pages = λ vb.
            s2.pages (pgd_idx vb) (pmd_idx vb) (pte_idx vb) (omega arith) (omega arith)
              (omega arith)
            ∙ s1.pages (pgd_idx vb) (pmd_idx vb) (pte_idx vb) (omega arith) (omega arith)
                (omega arith);
        room = omega arith;
        bytes = s2.bytes ∙ s1.bytes;
        kmem = s2.kmem ∙ s1.kmem;
        there = on;
        there2 = on2;
        entry = ap (λ (t : ℕ). t + 8 * pte_idx va) (sym at2);
      },
    )
