-- ===== src/Vm/Lookup.antt =====
-- uva2ka and clearpteu of src/vm.c: user addresses as the kernel finds them in the page tables.
use pinky_os.Prelude.{
  ℕ, ◌+◌, ◌-◌, ◌*◌, ◌/◌, ◌%◌, ◌^◌, ◌≤◌, ◌<◌, ◌≡◌, refl, ap, ◌∙◌, ◌≢◌, ◌⊎◌, inl, inr, Bool, true,
  false, ◌&&◌, none, some, arith, ltb, leb, ◌==◌, if◌then◌else◌, test_of_ne, eq_self, Bool-cases,
  length,
}
use pinky_os.Outcome.{ok}
use pinky_os.Vm.{
  Vm, p2v, is_on, put_word, walkpgdir, pgd_idx, pmd_idx, pte_idx, page_entry, pte_sz, align_dn,
  pages, mappages, ap_rw_1_0, pte_ap, pte_addr,
}
use pinky_os.Vm.Tables.{has_mid, low_entry, low, has_low, page_at, Shaped}
use pinky_os.Vm.Walk.{page, next_table-on, Walked}
use pinky_os.Vm.Entry.{page_entry-parts}
use pinky_os.Vm.Store.{Walked-Stored}
use pinky_os.Vm.Map.{mappages_entries}
use pinky_os.Vm.User.{clearpteu, uva2ka}

-- A page with an entry has tables.
tables_of :
    (word : ℕ → ℕ) (pgdir i j k : ℕ)
    → is_on (page_at word pgdir i j k) ≡ true
    → (has_mid word pgdir i ≡ true)
      × (has_low word pgdir i j ≡ true)
      × (word (low word pgdir i j + 8 * k) ≡ page_at word pgdir i j k)
unfolding page_at
tables_of word pgdir i j k on = elim (Bool-cases (has_mid word pgdir i && has_low word pgdir i j)) [
  | inl e ↦ (ground arith, ground arith, rw e)
  | inr e ↦ absurd (
      let z = ap (λ (b : Bool). is_on (if b then word (low word pgdir i j + 8 * k) else 0)) e in
      ground (arith, z, on))
]

-- `walkpgdir` that does not allocate finds the entry of a page that is mapped.
find_lem :
    (vm : Vm) (pgdir va : ℕ) (role : ℕ → ℕ)
    → Shaped vm.word vm.runs pgdir role
    → is_on (page vm pgdir va) ≡ true
    → (a : ℕ) × (walkpgdir vm pgdir va false ≡ ok (some a, vm))
      × (vm.word a ≡ page vm pgdir va)
      × Walked vm pgdir va a vm
unfolding walkpgdir
find_lem vm pgdir va role s on =
    let (there, there2, same) = tables_of vm.word pgdir (pgd_idx va) (pmd_idx va) (pte_idx va) on in
    (
      low vm.word pgdir (pgd_idx va) (pmd_idx va) + 8 * pte_idx va,
      rw (
        next_table-on vm (pgdir + 8 * pgd_idx va) false there,
        next_table-on vm (low_entry vm.word pgdir (pgd_idx va) (pmd_idx va)) false there2,
      ),
      same,
      record {
        role = role;
        shaped = s;
        pages = λ vb. refl;
        room = omega arith;
        bytes = refl;
        kmem = refl;
        there = there;
        there2 = there2;
        entry = refl;
      },
    )

-- uva2ka of a page that is mapped gives its address, if users may access it.
uva2ka_lem :
    (vm : Vm) (pgdir va : ℕ) (role : ℕ → ℕ)
    → Shaped vm.word vm.runs pgdir role
    → is_on (page vm pgdir va) ≡ true
    → uva2ka vm pgdir va
      ≡ ok (
          if pte_ap (page vm pgdir va) == ap_rw_1_0
          then some (p2v (pte_addr (page vm pgdir va)))
          else none)
unfolding uva2ka
uva2ka_lem vm pgdir va role s on =
    let (a, w, same, walked) = find_lem vm pgdir va role s on in
    elim (Bool-cases (pte_ap (page vm pgdir va) == 64)) [
      | inl e ↦ rw (w, same, on, e)
      | inr e ↦ rw (w, same, on, e)
    ]

-- After mappages of pages that are not mapped to physical pages below 4 GB, in page tables that share
-- no table and with two tables free for each page, uva2ka of an address in those pages gives the
-- kernel's address of the physical page that mappages was given for it, if the pages are for users
-- (AP_RW_1_0), and 0 if they are not (AP_RW_1).
pub uva2ka-mappages :
    (vm : Vm) (pgdir va size pa perm : ℕ) (role : ℕ → ℕ)
    → Shaped vm.word vm.runs pgdir role
    → 0 < size
    → 2 * pages va size ≤ length vm.runs
    → va + size ≤ 2 ^ 32
    → pa % 4096 ≡ 0
    → pa + pages va size * 4096 ≤ 2 ^ 32
    → perm ≡ 0 ⊎ perm ≡ 64
    → ((vb : ℕ)
        → align_dn va pte_sz ≤ vb
        → vb < align_dn va pte_sz + pages va size * 4096
        → is_on (page vm pgdir vb) ≡ false)
    → (vm' : Vm) × (mappages vm pgdir va size pa perm ≡ ok (true, vm'))
      × ((vb : ℕ)
          → align_dn va pte_sz ≤ vb
          → vb < align_dn va pte_sz + pages va size * 4096
          → uva2ka vm' pgdir vb
            ≡ ok (
                if perm == ap_rw_1_0
                then some (p2v (pa + (vb - align_dn va pte_sz) / 4096 * 4096))
                else none))
uva2ka-mappages vm pgdir va size pa perm role s some_size room range whole range2 access free =
    let (vm', e, m) =
      (mappages_entries vm pgdir va size pa perm role s some_size room range range2).0 free in
    let count : pages va size ≡ (va + size - 1) / 4096 - va / 4096 + 1 = omega arith in
    (
      vm',
      e,
      λ vb lo hi.
          let a = align_dn va pte_sz in
          let frame = pa + (vb - a) / 4096 * 4096 in
          let inside : (leb a vb && ltb vb (a + pages va size * 4096)) ≡ true = ground arith in
          let at : page vm' pgdir vb ≡ page_entry frame perm =
            (m.pages vb (omega arith)
              ∙ ap (λ (b : Bool). if b then page_entry frame perm else page vm pgdir vb) inside) in
          let (on, access_is, addr_is) = page_entry-parts frame perm (omega arith) access in
          uva2ka_lem vm' pgdir vb m.role m.shaped (ap is_on at ∙ on)
          ∙ ap (λ (x : ℕ). ok (if pte_ap x == 64 then some (p2v (pte_addr x)) else none)) at
          ∙ ap
              (λ (x : ℕ).
                ok (if x == 64 then some (p2v (pte_addr (page_entry frame perm))) else none))
              access_is
          ∙ ap (λ (x : ℕ). ok (if perm == 64 then some (p2v x) else none)) addr_is,
    )

guarded :
    (p : ℕ)
    → is_on p ≡ true
    → (is_on (p - pte_ap p + 0) ≡ true) × ((pte_ap (p - pte_ap p + 0) == 64) ≡ false)
guarded p on =
    let low : (p - p / 64 % 4 * 64 + 0) % 4 ≡ p % 4 = omega arith in
    let clear : (p - p / 64 % 4 * 64 + 0) / 64 % 4 ≡ 0 = omega arith in
    (ground (arith, low, on), ground (arith, clear))

-- clearpteu of an address below 4 GB whose page is mapped, in page tables that share no table: uva2ka
-- then gives 0 for each address of the page, and no other page has changed.
pub clearpteu_lem :
    (vm : Vm) (pgdir va : ℕ) (role : ℕ → ℕ)
    → Shaped vm.word vm.runs pgdir role
    → va < 2 ^ 32
    → is_on (page vm pgdir va) ≡ true
    → (vm' : Vm) × (clearpteu vm pgdir va ≡ ok vm')
      × ((vb : ℕ) → vb < 2 ^ 32 → vb / 4096 ≡ va / 4096 → uva2ka vm' pgdir vb ≡ ok none)
      × ((vb : ℕ) → vb < 2 ^ 32 → vb / 4096 ≢ va / 4096 → page vm' pgdir vb ≡ page vm pgdir vb)
unfolding clearpteu
clearpteu_lem vm pgdir va role s range on =
    let (a, w, same, walked) = find_lem vm pgdir va role s on in
    let p = page vm pgdir va in
    let v = p - pte_ap p + 0 in
    let (on', no_user) = guarded p on in
    let st = Walked-Stored vm vm pgdir va a v range walked in
    (
      put_word vm a v,
      rw (w, same),
      λ vb h same_page.
          let at : page (put_word vm a v) pgdir vb ≡ v =
            (st.pages vb h
              ∙ ap (λ (x : ℕ). if x == va / 4096 then v else page vm pgdir vb) same_page
              ∙ ap (λ (b : Bool). if b then v else page vm pgdir vb) (eq_self (va / 4096))) in
          uva2ka_lem (put_word vm a v) pgdir vb st.role st.shaped (ap is_on at ∙ on')
          ∙ ap (λ (x : ℕ). ok (if pte_ap x == 64 then some (p2v (pte_addr x)) else none)) at
          ∙ ap (λ (b : Bool). ok (if b then some (p2v (pte_addr v)) else none)) no_user,
      λ vb h far.
          st.pages vb h
          ∙ ap (λ (b : Bool). if b then v else page vm pgdir vb)
              (test_of_ne (vb / 4096) (va / 4096) far),
    )
