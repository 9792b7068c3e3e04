-- ===== src/Vm/User.antt =====
-- The address spaces of processes in src/vm.c, over the page tables and the page allocator.
use pinky_os.Prelude.{
  ℕ, zero, suc, ◌+◌, ◌-◌, ◌*◌, ◌/◌, ◌%◌, ◌^◌, min, Bool, true, false, not, Option, none, some, List,
  [], ◌∷◌, ltb, leb, ◌==◌, if◌then◌else◌, length, take,
}
use pinky_os.Outcome.{Outcome, ok, panic, ◌>>=◌}
use pinky_os.Strings.Memory.{memmove, memset}
use pinky_os.Buddy.{alloc_page, free_page}
use pinky_os.Fs.{Fs}
use pinky_os.Fs.Content.{Devices, drop, readi}
use pinky_os.Vm.{
  Vm, v2p, p2v, pte_sz, uaddr_sz, pmd_sz, align_dn, align_up, is_on, entry_table, put_word,
  kpt_alloc, kpt_free, walkpgdir, ap_rw_1, ap_rw_1_0, pte_ap, pte_addr, mappages,
}

-- A page, or none for 0.
abbrev pub take_page : Vm → Outcome (Option ℕ × Vm)
take_page vm = do (got, kmem) ← alloc_page vm.kmem; ok (got, record vm { kmem = kmem })

abbrev pub zero_page : Vm → (mem : ℕ) → Vm
zero_page vm mem = record vm { byte = memset vm.byte mem 0 pte_sz }

-- Bytes written from an address on.
abbrev pub put_bytes : (ℕ → ℕ) → (a : ℕ) → List ℕ → ℕ → ℕ
put_bytes byte a [] = byte
put_bytes byte a (b ∷ bs) = put_bytes (λ x. if x == a then b else byte x) (a + 1) bs

-- `inituvm` with the bytes of the initcode. Without a page, `memset` would clear address 0.
unfoldable pub inituvm : Vm → (pgdir : ℕ) → (init : List ℕ) → Outcome Vm
inituvm vm pgdir init = if leb pte_sz (length init) then panic "inituvm: more than a page" else (do
  (got, vm) ← take_page vm
  let mem : ℕ = elim got [ some m ↦ m | none ↦ 0 ]
  (done, vm) ← mappages (zero_page vm mem) pgdir 0 pte_sz (v2p mem % 2 ^ 32) ap_rw_1_0
  ok (record vm { byte = put_bytes vm.byte mem init }))

-- The loop of `deallocuvm` from a on, in n rounds at most; each adds at least a page to a.
unfoldable pub free_from : Vm → (pgdir a oldsz n : ℕ) → Outcome Vm
free_from vm pgdir a oldsz zero = ok vm
free_from vm pgdir a oldsz (suc n) = if leb oldsz a then ok vm else (do
  (found, vm) ← walkpgdir vm pgdir a false
  elim found [
    | none ↦ free_from vm pgdir (align_up a pmd_sz + pte_sz) oldsz n
    | some pte ↦
        if not (is_on (vm.word pte))
        then free_from vm pgdir (a + pte_sz) oldsz n
        else let pa = pte_addr (vm.word pte) % 2 ^ 32 in
          if pa == 0
          then panic "deallocuvm"
          else (free_page vm.kmem (p2v pa) >>= λ kmem.
              free_from (put_word (record vm { kmem = kmem }) pte 0) pgdir (a + pte_sz) oldsz n)
  ])

-- The rounds of a loop over the pages from a on up to a size.
abbrev pub page_rounds : (a size : ℕ) → ℕ
page_rounds a size = (size - a + (pte_sz - 1)) / pte_sz

unfoldable pub deallocuvm : Vm → (pgdir oldsz newsz : ℕ) → Outcome (ℕ × Vm)
unfolding free_from
deallocuvm vm pgdir oldsz newsz = if leb oldsz newsz then ok (oldsz, vm) else (do
  vm ← free_from vm pgdir (align_up newsz pte_sz) oldsz (page_rounds (align_up newsz pte_sz) oldsz)
  ok (newsz, vm))

-- The loop of `allocuvm` from a on, in n rounds: whether it got all pages.
unfoldable pub alloc_from : Vm → (pgdir a n : ℕ) → Outcome (Bool × Vm)
alloc_from vm pgdir a zero = ok (true, vm)
alloc_from vm pgdir a (suc n) = do
  (got, vm) ← take_page vm
  elim got [
    | none ↦ ok (false, vm)
    | some mem ↦ (do
      (done, vm) ← mappages (zero_page vm mem) pgdir a pte_sz (v2p mem % 2 ^ 32) ap_rw_1_0
      alloc_from vm pgdir (a + pte_sz) n)
  ]

-- `allocuvm`: the new size, or 0 on an error.
unfoldable pub allocuvm : Vm → (pgdir oldsz newsz : ℕ) → Outcome (ℕ × Vm)
unfolding alloc_from
allocuvm vm pgdir oldsz newsz =
    if leb uaddr_sz newsz then ok (0, vm) else if ltb newsz oldsz then ok (oldsz, vm) else (do
      let a = align_up oldsz pte_sz
      (all, vm) ← alloc_from vm pgdir a (page_rounds a newsz)
      if all then ok (newsz, vm) else (deallocuvm vm pgdir newsz oldsz >>= λ (sz, vm). ok (0, vm)))

-- The inner loop of `freevm`, at the n entries of a table of the second level from i on.
unfoldable pub free_lows : Vm → (pmdbase i n : ℕ) → Outcome Vm
free_lows vm pmdbase i zero = ok vm
free_lows vm pmdbase i (suc n) =
    let entry = vm.word (pmdbase + 8 * i) in
    if is_on entry
    then (kpt_free vm (p2v (align_dn entry pte_sz)) >>= λ vm. free_lows vm pmdbase (i + 1) n)
    else free_lows vm pmdbase (i + 1) n

unfoldable pub free_mids : Vm → (pgdir j n : ℕ) → Outcome Vm
unfolding free_lows
free_mids vm pgdir j zero = ok vm
free_mids vm pgdir j (suc n) =
    let entry = vm.word (pgdir + 8 * j) in
    if is_on entry
    then (do
      vm ← free_lows vm (entry_table entry) 0 512
      vm ← kpt_free vm (entry_table entry)
      free_mids vm pgdir (j + 1) n)
    else free_mids vm pgdir (j + 1) n

unfoldable pub freevm : Vm → (pgdir : ℕ) → Outcome Vm
unfolding free_mids
freevm vm pgdir = if pgdir == 0 then panic "freevm: no pgdir" else (do
  (sz, vm) ← deallocuvm vm pgdir uaddr_sz 0
  vm ← free_mids vm pgdir 0 4
  kpt_free vm pgdir)

unfoldable pub clearpteu : Vm → (pgdir uva : ℕ) → Outcome Vm
clearpteu vm pgdir uva = do
  (found, vm) ← walkpgdir vm pgdir uva false
  elim found [
    | none ↦ panic "clearpteu"
    | some pte ↦ ok (put_word vm pte (vm.word pte - pte_ap (vm.word pte) + ap_rw_1))
  ]

-- The loop of `copyuvm` from i on, in n rounds: whether it copied all pages.
unfoldable pub copy_from : Vm → (pgdir d i n : ℕ) → Outcome (Bool × Vm)
copy_from vm pgdir d i zero = ok (true, vm)
copy_from vm pgdir d i (suc n) = do
  (found, vm) ← walkpgdir vm pgdir i false
  elim found [
    | none ↦ panic "copyuvm: pte should exist"
    | some pte ↦
        if not (is_on (vm.word pte))
        then panic "copyuvm: page not present"
        else let pa = pte_addr (vm.word pte) in
          let ap = pte_ap (vm.word pte) in
          (do
            (got, vm) ← take_page vm
            elim got [
              | none ↦ ok (false, vm)
              | some mem ↦ (do
                (done, vm) ←
                    mappages (record vm { byte = memmove vm.byte mem (p2v pa) pte_sz }) d i pte_sz
                      (v2p mem % 2 ^ 32) ap
                if done then copy_from vm pgdir d (i + pte_sz) n else ok (false, vm))
            ])
  ]

-- `copyuvm`: the new page directory, or none for 0.
unfoldable pub copyuvm : Vm → (pgdir sz : ℕ) → Outcome (Option ℕ × Vm)
unfolding copy_from
copyuvm vm pgdir sz = do
  (d, vm) ← kpt_alloc vm
  (all, vm) ← copy_from vm pgdir d 0 (page_rounds 0 sz)
  if all then ok (some d, vm) else (freevm vm d >>= λ vm. ok (none, vm))

-- `uva2ka`: the address, or none for 0. It reads the entry also where walkpgdir returns 0, which
-- faults.
unfoldable pub uva2ka : Vm → (pgdir uva : ℕ) → Outcome (Option ℕ)
uva2ka vm pgdir uva = do
  (found, vm) ← walkpgdir vm pgdir uva false
  elim found [
    | none ↦ panic "read at address 0"
    | some pte ↦
        if not (is_on (vm.word pte))
        then ok none
        else if not (pte_ap (vm.word pte) == ap_rw_1_0)
        then ok none
        else ok (some (p2v (pte_addr (vm.word pte))))
  ]

-- The loop of `copyout` at the bytes left, in n rounds: whether it copied all (0 or -1).
unfoldable pub copyout_from : Vm → (pgdir va : ℕ) → List ℕ → (n : ℕ) → Outcome (Bool × Vm)
unfolding uva2ka
copyout_from vm pgdir va bytes zero = ok (true, vm)
copyout_from vm pgdir va bytes (suc n) = do
  let va0 = align_dn va pte_sz
  got ← uva2ka vm pgdir va0
  elim got [
    | none ↦ ok (false, vm)
    | some pa0 ↦
        let m = min (length bytes) (pte_sz - (va - va0)) in
        copyout_from (record vm { byte = put_bytes vm.byte (pa0 + (va - va0)) (take m bytes) })
          pgdir ((va0 + pte_sz) % 2 ^ 32) (drop m bytes) n
  ]

unfoldable pub copyout : Vm → (pgdir va : ℕ) → List ℕ → Outcome (Bool × Vm)
unfolding copyout_from
copyout vm pgdir va bytes =
    copyout_from vm pgdir va bytes
      (if length bytes == 0 then 0 else (va % pte_sz + length bytes + (pte_sz - 1)) / pte_sz)

-- The loop of `loaduvm` from i on, in n rounds: whether it read all (0 or -1). readi's bytes go to the
-- page.
unfoldable pub load_from :
    Devices → Vm → Fs → (pgdir addr ip offset sz i n : ℕ) → Outcome (Bool × (Vm × Fs))
load_from devices vm fs pgdir addr ip offset sz i zero = ok (true, (vm, fs))
load_from devices vm fs pgdir addr ip offset sz i (suc n) = do
  (found, vm) ← walkpgdir vm pgdir (addr + i) false
  elim found [
    | none ↦ panic "loaduvm: address should exist"
    | some pte ↦
        let pa = pte_addr (vm.word pte) % 2 ^ 32 in
        let m = min (sz - i) pte_sz in
        (do
          (got, fs) ← readi devices fs ip ((offset + i) % 2 ^ 32) m
          elim got [
            | none ↦ ok (false, (vm, fs))
            | some bytes ↦
                let vm = record vm { byte = put_bytes vm.byte (p2v pa) bytes } in
                if length bytes == m
                then load_from devices vm fs pgdir addr ip offset sz (i + pte_sz) n
                else ok (false, (vm, fs))
          ])
  ]

unfoldable pub loaduvm :
    Devices → Vm → Fs → (pgdir addr ip offset sz : ℕ) → Outcome (Bool × (Vm × Fs))
unfolding load_from
loaduvm devices vm fs pgdir addr ip offset sz =
    if not (addr % pte_sz == 0)
    then panic "loaduvm: addr must be page aligned"
    else load_from devices vm fs pgdir addr ip offset sz 0 (page_rounds 0 sz)
