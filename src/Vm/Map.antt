-- ===== src/Vm/Map.antt =====
-- mappages of src/vm.c: the pages that it maps, and that no other page changes.
use pinky_os.Prelude.{
  ◌⊎◌, ℕ, zero, suc, ◌+◌, ◌-◌, ◌*◌, ◌/◌, ◌%◌, ◌^◌, ◌≤◌, ◌<◌, ◌≡◌, refl, ap, ◌∙◌, inl, inr, Bool,
  true, false, ◌&&◌, some, arith, ltb, leb, ◌==◌, if◌then◌else◌, eq_of_test, ne_of_test, test_of_ne,
  Bool-cases, length,
}
use pinky_os.Outcome.{ok, panic}
use pinky_os.Vm.{
  pte_addr, pte_ap, Vm, is_on, put_word, walkpgdir, pgd_idx, pmd_idx, pte_idx, page_entry, pte_sz,
  align_dn, pages, map_from, mappages,
}
use pinky_os.Vm.Tables.{page_at, Shaped}
use pinky_os.Vm.Walk.{page, walkpgdir_lem}
use pinky_os.Vm.Entry.{page_entry-parts}
use pinky_os.Vm.Store.{Walked-Stored, Walked-page}

-- What the pages are after n pages from a on are mapped to those from pa on.
abbrev pub mapped : Vm → (pgdir a pa perm n vb : ℕ) → ℕ
mapped vm pgdir a pa perm n vb =
    if leb a vb && ltb vb (a + n * 4096)
    then page_entry (pa + (vb - a) / 4096 * 4096) perm
    else page vm pgdir vb

-- The pages are mapped, in tables that still share none.
pub record Maps (vm : Vm) (pgdir a pa perm n : ℕ) (vm' : Vm) : Type 0 where
  pub role : ℕ → ℕ
  pub shaped : Shaped vm'.word vm'.runs pgdir role
  pub pages : (vb : ℕ) → vb < 2 ^ 32 → page vm' pgdir vb ≡ mapped vm pgdir a pa perm n vb
  pub room : length vm.runs ≤ length vm'.runs + 2 * n
  pub bytes : vm'.byte ≡ vm.byte
  pub kmem : vm'.kmem ≡ vm.kmem

mapped_step :
    (a pa perm n vb v old : ℕ)
    → a % 4096 ≡ 0
    → pa + suc n * 4096 ≤ 2 ^ 32
    → (if leb (a + 4096) vb && ltb vb (a + 4096 + n * 4096)
        then page_entry ((pa + 4096) % 2 ^ 32 + (vb - (a + 4096)) / 4096 * 4096) perm
        else if vb / 4096 == a / 4096
        then page_entry pa perm
        else old)
      ≡ (if leb a vb && ltb vb (a + suc n * 4096)
          then page_entry (pa + (vb - a) / 4096 * 4096) perm
          else old)
mapped_step a pa perm n vb v old h room =
    elim (Bool-cases (leb (a + 4096) vb && ltb vb (a + 4096 + n * 4096))) [
      | inl e ↦
          let g1 : a + 4096 ≤ vb = ground arith in
          let g2 : vb < a + 4096 + n * 4096 = ground arith in
          let inside : (leb a vb && ltb vb (a + suc n * 4096)) ≡ true = ground arith in
          let same : (pa + 4096) % 2 ^ 32 + (vb - (a + 4096)) / 4096 * 4096
              ≡ pa + (vb - a) / 4096 * 4096 =
            omega arith in
          rw (e, inside, same)
      | inr e ↦ rw e (elim (Bool-cases (vb / 4096 == a / 4096)) [
        | inl q ↦
            let p = eq_of_test (vb / 4096) (a / 4096) q in
            let inside : (leb a vb && ltb vb (a + suc n * 4096)) ≡ true = ground arith in
            let same : pa ≡ pa + (vb - a) / 4096 * 4096 = omega arith in rw (q, inside, ← same)
        | inr q ↦
            let p = ne_of_test (vb / 4096) (a / 4096) q in
            let outside : (leb a vb && ltb vb (a + suc n * 4096)) ≡ false = ground arith in
            rw (q, outside)
      ])
    ]

map_from-on :
    (vm vm1 : Vm) (pgdir a e pa perm n : ℕ)
    → walkpgdir vm pgdir a true ≡ ok (some e, vm1)
    → is_on (vm1.word e) ≡ true
    → map_from vm pgdir a pa perm (suc n) ≡ panic "remap"
unfolding map_from
map_from-on vm vm1 pgdir a e pa perm n w on = rw (w, on)

map_from-off :
    (vm vm1 : Vm) (pgdir a e pa perm n : ℕ)
    → walkpgdir vm pgdir a true ≡ ok (some e, vm1)
    → is_on (vm1.word e) ≡ false
    → map_from vm pgdir a pa perm (suc n)
      ≡ map_from
          (put_word vm1 e (page_entry pa perm))
          pgdir
          ((a + 4096) % 2 ^ 64)
          ((pa + 4096) % 2 ^ 32)
          perm
          n
unfolding map_from
map_from-off vm vm1 pgdir a e pa perm n w off = rw (w, off)

pub map_from_lem :
    (n : ℕ) (vm : Vm) (pgdir a pa perm : ℕ) (role : ℕ → ℕ)
    → Shaped vm.word vm.runs pgdir role
    → 2 * n ≤ length vm.runs
    → a % 4096 ≡ 0
    → a + n * 4096 ≤ 2 ^ 32
    → pa + n * 4096 ≤ 2 ^ 32
    → ((vb : ℕ) → a ≤ vb → vb < a + n * 4096 → is_on (page vm pgdir vb) ≡ false)
    → (vm' : Vm) × (map_from vm pgdir a pa perm n ≡ ok (true, vm')) × Maps vm pgdir a pa perm n vm'
unfolding map_from
map_from_lem zero vm pgdir a pa perm role s room whole range range2 free = (
  vm,
  refl,
  record {
    role = role;
    shaped = s;
    pages = λ vb h. ground arith;
    room = omega arith;
    bytes = refl;
    kmem = refl;
  },
)
map_from_lem (suc n) vm pgdir a pa perm role s room whole range range2 free =
    let (e, vm1, w, walked) = walkpgdir_lem vm pgdir a role s (omega arith) in
    let off : is_on (vm1.word e) ≡ false =
      (ap is_on (Walked-page vm vm1 pgdir a e walked) ∙ free a (omega arith) (omega arith)) in
    let v = page_entry pa perm in
    let st = Walked-Stored vm vm1 pgdir a e v (omega arith) walked in
    let vm2 = put_word vm1 e v in
    let left = st.room in
    let free2 : (vb : ℕ)
        → a + 4096 ≤ vb
        → vb < a + 4096 + n * 4096
        → is_on (page vm2 pgdir vb) ≡ false =
      (λ vb lo hi.
        ap is_on (
          st.pages vb (omega arith)
          ∙ ap (λ (b : Bool). if b then v else page vm pgdir vb)
              (test_of_ne (vb / 4096) (a / 4096) (λ p. omega arith)))
        ∙ free vb (omega arith) (omega arith)) in
    let (vm', r, m) =
      map_from_lem n vm2 pgdir (a + 4096) ((pa + 4096) % 2 ^ 32) perm st.role st.shaped
        (omega arith) (omega arith) (omega arith) (omega arith) free2 in
    let next : (a + 4096) % 2 ^ 64 ≡ a + 4096 = omega arith in
    let left2 = m.room in
    (
      vm',
      map_from-off vm vm1 pgdir a e pa perm n w off
          ∙ ap (λ (x : ℕ). map_from vm2 pgdir x ((pa + 4096) % 2 ^ 32) perm n) next
          ∙ r,
      record {
        role = m.role;
        shaped = m.shaped;
        pages = λ vb h.
            m.pages vb h
            ∙ ap
                (λ (x : ℕ).
                  if leb (a + 4096) vb && ltb vb (a + 4096 + n * 4096)
                  then page_entry ((pa + 4096) % 2 ^ 32 + (vb - (a + 4096)) / 4096 * 4096) perm
                  else x)
                (st.pages vb h)
            ∙ mapped_step a pa perm n vb v (page vm pgdir vb) whole range2;
        room = omega arith;
        bytes = m.bytes ∙ st.bytes;
        kmem = m.kmem ∙ st.kmem;
      },
    )

-- The entries that mappages leaves.
pub mappages_entries :
    (vm : Vm) (pgdir va size pa perm : ℕ) (role : ℕ → ℕ)
    → Shaped vm.word vm.runs pgdir role
    → 0 < size
    → 2 * pages va size ≤ length vm.runs
    → va + size ≤ 2 ^ 32
    → pa + pages va size * 4096 ≤ 2 ^ 32
    → (((vb : ℕ)
          → align_dn va pte_sz ≤ vb
          → vb < align_dn va pte_sz + pages va size * 4096
          → is_on (page vm pgdir vb) ≡ false)
        → (vm' : Vm) × (mappages vm pgdir va size pa perm ≡ ok (true, vm'))
          × Maps vm pgdir (align_dn va pte_sz) pa perm (pages va size) vm')
      × (is_on (page vm pgdir va) ≡ true → mappages vm pgdir va size pa perm ≡ panic "remap")
unfolding mappages
mappages_entries vm pgdir va size pa perm role s some_size room range range2 =
    let a = align_dn va pte_sz in
    let count : pages va size ≡ (va + size - 1) / 4096 - va / 4096 + 1 = omega arith in
    (
      λ free.
          map_from_lem (pages va size) vm pgdir a pa perm role s room (omega arith) (omega arith)
            range2 free,
      λ on.
          let (e, vm1, w, walked) = walkpgdir_lem vm pgdir a role s (omega arith) in
          let same : page vm pgdir a ≡ page vm pgdir va =
            (let p1 : pgd_idx a ≡ pgd_idx va = omega arith in
              let p2 : pmd_idx a ≡ pmd_idx va = omega arith in
              let p3 : pte_idx a ≡ pte_idx va = omega arith in
              ap (λ (x : ℕ). page_at vm.word pgdir x (pmd_idx a) (pte_idx a)) p1
              ∙ ap (λ (x : ℕ). page_at vm.word pgdir (pgd_idx va) x (pte_idx a)) p2
              ∙ ap (page_at vm.word pgdir (pgd_idx va) (pmd_idx va)) p3) in
          let more : pages va size ≡ suc (pages va size - 1) = omega arith in
          ap (λ (c : ℕ). map_from vm pgdir a pa perm c) more
          ∙ map_from-on vm vm1 pgdir a e pa perm (pages va size - 1) w
              (ap is_on (Walked-page vm vm1 pgdir a e walked ∙ same) ∙ on),
    )

-- The pages are mapped to those from pa on, and no other page has changed, in tables that still share
-- none.
pub record Mapped (vm : Vm) (pgdir a pa perm n : ℕ) (vm' : Vm) : Type 0 where
  pub role : ℕ → ℕ
  pub shaped : Shaped vm'.word vm'.runs pgdir role
  pub within :
      (vb : ℕ)
      → a ≤ vb
      → vb < a + n * 4096
      → (is_on (page vm' pgdir vb) ≡ true)
        × (pte_addr (page vm' pgdir vb) ≡ pa + (vb - a) / 4096 * 4096)
        × (pte_ap (page vm' pgdir vb) ≡ perm)
  pub beside :
      (vb : ℕ) → vb < 2 ^ 32 → vb < a ⊎ a + n * 4096 ≤ vb → page vm' pgdir vb ≡ page vm pgdir vb
  pub bytes : vm'.byte ≡ vm.byte
  pub kmem : vm'.kmem ≡ vm.kmem

Maps-Mapped :
    (vm : Vm) (pgdir a pa perm n : ℕ) (vm' : Vm)
    → pa % 4096 ≡ 0
    → perm ≡ 0 ⊎ perm ≡ 64
    → a + n * 4096 ≤ 2 ^ 32
    → Maps vm pgdir a pa perm n vm'
    → Mapped vm pgdir a pa perm n vm'
Maps-Mapped vm pgdir a pa perm n vm' whole access range m = record {
  role = m.role;
  shaped = m.shaped;
  within = λ vb lo hi.
      let frame = pa + (vb - a) / 4096 * 4096 in
      let inside : (leb a vb && ltb vb (a + n * 4096)) ≡ true = ground arith in
      let at : page vm' pgdir vb ≡ page_entry frame perm =
        (m.pages vb (omega arith)
          ∙ ap (λ (b : Bool). if b then page_entry frame perm else page vm pgdir vb) inside) in
      let parts = page_entry-parts frame perm (omega arith) access in
      (ap is_on at ∙ parts.0, ap pte_addr at ∙ parts.2, ap pte_ap at ∙ parts.1);
  beside = λ vb h out.
      let outside : (leb a vb && ltb vb (a + n * 4096)) ≡ false = ground arith in
      m.pages vb h
      ∙ ap
          (λ (b : Bool).
            if b then page_entry (pa + (vb - a) / 4096 * 4096) perm else page vm pgdir vb)
          outside;
  bytes = m.bytes;
  kmem = m.kmem;
}

-- In page tables that share no table, with two tables free for each page, for at least one byte below
-- 4 GB whose pages are not mapped, whole physical pages below 4 GB, and access for the kernel (AP_RW_1) or
-- for users too (AP_RW_1_0): mappages returns 0, and each of the pages then has a valid entry with the
-- address of its physical page and with that access; no other page has changed, and the tables still
-- share none. If the first page is mapped, mappages panics.
pub mappages_lem :
    (vm : Vm) (pgdir va size pa perm : ℕ) (role : ℕ → ℕ)
    → Shaped vm.word vm.runs pgdir role
    → 0 < size
    → 2 * pages va size ≤ length vm.runs
    → va + size ≤ 2 ^ 32
    → pa % 4096 ≡ 0
    → pa + pages va size * 4096 ≤ 2 ^ 32
    → perm ≡ 0 ⊎ perm ≡ 64
    → (((vb : ℕ)
          → align_dn va pte_sz ≤ vb
          → vb < align_dn va pte_sz + pages va size * 4096
          → is_on (page vm pgdir vb) ≡ false)
        → (vm' : Vm) × (mappages vm pgdir va size pa perm ≡ ok (true, vm'))
          × Mapped vm pgdir (align_dn va pte_sz) pa perm (pages va size) vm')
      × (is_on (page vm pgdir va) ≡ true → mappages vm pgdir va size pa perm ≡ panic "remap")
mappages_lem vm pgdir va size pa perm role s some_size room range whole range2 access =
    let entries = mappages_entries vm pgdir va size pa perm role s some_size room range range2 in
    let count : pages va size ≡ (va + size - 1) / 4096 - va / 4096 + 1 = omega arith in
    (
      λ free.
          let (vm', e, m) = entries.0 free in
          (
            vm',
            e,
            Maps-Mapped vm pgdir (align_dn va pte_sz) pa perm (pages va size) vm' whole access
                (omega arith) m,
          ),
      entries.1,
    )
