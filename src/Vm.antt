-- ===== src/Vm.antt =====
-- Page tables of src/vm.c: three levels of 512 (at the first level 4) entries of 64 bits each, at
-- kernel virtual addresses.
pub mod Tables
pub mod Grow
pub mod Walk
pub mod Entry
pub mod Store
pub mod Map
pub mod Lookup
pub mod User
mod Tests
use pinky_os.Prelude.{
  ℕ, zero, suc, ◌+◌, ◌-◌, ◌*◌, ◌/◌, ◌%◌, ◌^◌, ◌≤◌, ◌<◌, min, ◌≡◌, refl, sym, ap, ◌∙◌, ◌≢◌, ◌↔◌, ◌⊎◌,
  inl, inr, Bool, true, false, not, ◌&&◌, ◌||◌, Option, none, some, List, [], ◌∷◌, ◌++◌, append-nil,
  append_assoc, arith, ltb, leb, ◌==◌, if◌then◌else◌, eq_of_test, ne_of_test, test_of_ne, eq_self,
  Bool-cases, Option-cases, length, get_or, set, take, replicate, length-append, length-set,
  length-replicate, get_or-set_self, get_or-set_ne, get_or-set,
}
use Prim.Native.Nat.{bit_or}
use pinky_os.Outcome.{Outcome, ok, panic, waits, ◌>>=◌}
use pinky_os.Buddy.{Kmem, kmalloc, kfree}

-- `mem` is the 64-bit word at an address (of the page tables), `byte` the byte at an address (of the
-- pages), `runs` the free list of `kpt_mem`, and `kmem` the page allocator.
pub record Vm : Type 0 where
  pub word : ℕ → ℕ
  pub byte : ℕ → ℕ
  pub runs : List ℕ
  pub kmem : Kmem

-- KERNBASE, v2p and p2v
abbrev pub kernbase : ℕ
kernbase = 0xFFFFFFFF00000000

abbrev pub v2p : ℕ → ℕ
v2p a = (a + (2 ^ 64 - kernbase)) % 2 ^ 64

abbrev pub p2v : ℕ → ℕ
p2v a = (a + kernbase) % 2 ^ 64

-- PT_SZ and PTE_SZ, PT_ORDER, UADDR_SZ, PMD_SZ
abbrev pub pte_sz : ℕ
pte_sz = 4096

abbrev pub pt_order : ℕ
pt_order = 10

abbrev pub uaddr_sz : ℕ
uaddr_sz = 2 ^ 28

abbrev pub pmd_sz : ℕ
pmd_sz = 2 ^ 21

-- align_up and align_dn, in 64 bits, of a power of 2.
abbrev pub align_dn : (a size : ℕ) → ℕ
align_dn a size = a - a % size

abbrev pub align_up : (a size : ℕ) → ℕ
align_up a size = align_dn ((a + size - 1) % 2 ^ 64) size

-- PGD_IDX, PMD_IDX and PTE_IDX
abbrev pub pgd_idx : ℕ → ℕ
pgd_idx va = va / 2 ^ 30 % 4

abbrev pub pmd_idx : ℕ → ℕ
pmd_idx va = va / 2 ^ 21 % 512

abbrev pub pte_idx : ℕ → ℕ
pte_idx va = va / 2 ^ 12 % 512

-- `entry & (ENTRY_TABLE | ENTRY_VALID)`, as a test.
abbrev pub is_on : ℕ → Bool
is_on entry = not (entry % 4 == 0)

-- `p2v(entry & PG_ADDR_MASK)`
abbrev pub entry_table : ℕ → ℕ
entry_table entry = p2v (entry / 4096 % 2 ^ 36 * 4096)

-- `v2p(table) | ENTRY_TABLE | ENTRY_VALID`
abbrev pub table_entry : ℕ → ℕ
table_entry table = v2p table / 4 * 4 + 3

abbrev pub put_word : Vm → (a v : ℕ) → Vm
put_word vm a v = record vm { word = λ x. if x == a then v else vm.word x }

-- `memset(table, 0, PT_SZ)`
abbrev pub clear_table : Vm → ℕ → Vm
clear_table vm a = record vm { word = λ x. if leb a x && ltb x (a + 4096) then 0 else vm.word x }

-- `kpt_alloc`. The link of a free table lies in its first word, which is cleared with the rest.
unfoldable pub kpt_alloc : Vm → Outcome (ℕ × Vm)
kpt_alloc vm = elim vm.runs [
  | r ∷ runs ↦ ok (r, clear_table (record vm { runs = runs }) r)
  | [] ↦ kmalloc vm.kmem pt_order >>= λ (got, kmem). elim got [
    | some r ↦ ok (r, clear_table (record vm { kmem = kmem }) r)
    | none ↦ panic "oom: kpt_alloc"
  ]
]

-- `kpt_free`; INIT_KERNMAP is 0x40200000.
unfoldable pub kpt_free : Vm → (v : ℕ) → Outcome Vm
kpt_free vm v =
    if leb (p2v 0x40200000) v
    then (kfree vm.kmem v pt_order >>= λ kmem. ok (record vm { kmem = kmem }))
    else ok (record vm { runs = v ∷ vm.runs })

-- `kpt_freerange`, in n rounds.
unfoldable pub kpt_freerange : Vm → (low n : ℕ) → Vm
kpt_freerange vm low zero = vm
kpt_freerange vm low (suc n) = kpt_freerange (record vm { runs = low ∷ vm.runs }) (low + pte_sz) n

-- The table that an entry at an address leads to, which is made if `alloc` is set: one of the two
-- steps of `walkpgdir`.
unfoldable pub next_table : Vm → (entry : ℕ) → (alloc : Bool) → Outcome (Option ℕ × Vm)
unfolding kpt_alloc
next_table vm e alloc =
    if is_on (vm.word e)
    then ok (some (entry_table (vm.word e)), vm)
    else if not alloc
    then ok (none, vm)
    else (do (t, vm) ← kpt_alloc vm; ok (some t, put_word (clear_table vm t) e (table_entry t)))

-- `walkpgdir`: the address of the entry for va, or none for 0.
unfoldable pub walkpgdir : Vm → (pgdir va : ℕ) → (alloc : Bool) → Outcome (Option ℕ × Vm)
unfolding next_table
walkpgdir vm pgdir va alloc = do
  (found, vm) ← next_table vm (pgdir + 8 * pgd_idx va) alloc
  elim found [
    | none ↦ ok (none, vm)
    | some pmdbase ↦ (do
      (found, vm) ← next_table vm (pmdbase + 8 * pmd_idx va) alloc
      elim found [ none ↦ ok (none, vm) | some ptebase ↦ ok (some (ptebase + 8 * pte_idx va), vm) ])
  ]

-- AP_RW_1 and AP_RW_1_0, PTE_AP and PTE_ADDR
abbrev pub ap_rw_1 : ℕ
ap_rw_1 = 0

abbrev pub ap_rw_1_0 : ℕ
ap_rw_1_0 = 64

abbrev pub pte_ap : ℕ → ℕ
pte_ap pte = pte / 64 % 4 * 64

abbrev pub pte_addr : ℕ → ℕ
pte_addr pte = align_dn pte 4096

-- `pa | ACCESS_FLAG | SH_IN_SH | ap | NON_SECURE_PA | MEM_ATTR_IDX_4 | ENTRY_PAGE | ENTRY_VALID`
pub page_entry : (pa ap : ℕ) → ℕ
page_entry pa ap =
    bit_or
      (bit_or
        (bit_or (bit_or (bit_or (bit_or (bit_or pa (2 ^ 10)) (3 * 2 ^ 8)) ap) (2 ^ 5)) (4 * 2 ^ 2))
        2)
      1

-- The loop of `mappages` in n rounds; `pa` is a `uint`. It says whether it mapped all (0 or -1).
unfoldable pub map_from : Vm → (pgdir a pa ap n : ℕ) → Outcome (Bool × Vm)
unfolding walkpgdir
map_from vm pgdir a pa ap zero = ok (true, vm)
map_from vm pgdir a pa ap (suc n) = do
  (found, vm) ← walkpgdir vm pgdir a true
  elim found [
    | none ↦ ok (false, vm)
    | some pte ↦
        if is_on (vm.word pte)
        then panic "remap"
        else map_from (put_word vm pte (page_entry pa ap)) pgdir ((a + pte_sz) % 2 ^ 64)
            ((pa + pte_sz) % 2 ^ 32) ap n
  ]

-- From the page of va to that of va + size - 1.
abbrev pub pages : (va size : ℕ) → ℕ
pages va size =
    let last = align_dn ((va + size + (2 ^ 64 - 1)) % 2 ^ 64) pte_sz in
    ((last + (2 ^ 64 - align_dn va pte_sz)) % 2 ^ 64) / pte_sz + 1

unfoldable pub mappages : Vm → (pgdir va size pa ap : ℕ) → Outcome (Bool × Vm)
unfolding map_from
mappages vm pgdir va size pa ap = map_from vm pgdir (align_dn va pte_sz) pa ap (pages va size)
