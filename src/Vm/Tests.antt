-- ===== src/Vm/Tests.antt =====
-- Runs of src/vm.c at concrete tables, and the theorems about it applied to them.
use pinky_os.Prelude.{
  ℕ, ◌+◌, ◌-◌, ◌*◌, ◌/◌, ◌^◌, ◌≤◌, ◌<◌, ◌≡◌, refl, sym, ap, ◌∙◌, ◌≢◌, inl, inr, true, false, none,
  some, [], ◌∷◌, arith, ◌==◌, if◌then◌else◌, eq_of_test, ne_of_test, test_of_ne, Bool-cases,
}
use mathlib.Core.Path.{subst}
use pinky_os.Outcome.{ok, panic}
use pinky_os.Buddy.{Kmem, empty_order}
use pinky_os.Vm.{
  next_table, Vm, kernbase, is_on, table_entry, page_entry, p2v, walkpgdir, mappages, ap_rw_1_0,
}
use pinky_os.Vm.Tables.{mid, low, has_mid, has_low, mid, IsTable, page_at, Shaped}
use pinky_os.Vm.Walk.{page}
use pinky_os.Vm.Map.{Mapped, mappages_lem}
use pinky_os.Vm.User.{deallocuvm, clearpteu, uva2ka}
use pinky_os.Vm.Lookup.{uva2ka-mappages, clearpteu_lem}

-- Three tables; the first is the page directory.
abbrev first : ℕ
first = kernbase + 0x40001000

abbrev second : ℕ
second = kernbase + 0x40002000

abbrev third : ℕ
third = kernbase + 0x40003000

abbrev no_heap : Kmem
no_heap = record { start_heap = 0; order = λ k. empty_order }

abbrev empty : Vm
empty = record { word = λ a. 0; byte = λ a. 0; runs = second ∷ third ∷ []; kmem = no_heap }

abbrev empty_role : ℕ → ℕ
empty_role f = if f == first / 4096 then 1 else 0

empty-Shaped : Shaped empty.word empty.runs first empty_role
empty-Shaped = record {
  root = (record { aligned = refl; low = omega arith; high = omega arith }, refl);
  mids = λ i lt on. cc;
  lows = λ i j lt ltj on. cc;
  free = λ r here. elim (Bool-cases (second == r)) [
    | inl e ↦
        subst (λ r. IsTable r × (empty_role (r / 4096) ≡ 0)) (eq_of_test second r e)
          (record { aligned = refl; low = omega arith; high = omega arith }, refl)
    | inr e ↦ elim (Bool-cases (third == r)) [
      | inl f ↦
          subst (λ r. IsTable r × (empty_role (r / 4096) ≡ 0)) (eq_of_test third r f)
            (record { aligned = refl; low = omega arith; high = omega arith }, refl)
      | inr f ↦ absurd (ground (arith, here, e, f))
    ]
  ];
  distinct = (refl, (refl, tt));
}

nothing_mapped : (vb : ℕ) → is_on (page empty first vb) ≡ false
unfolding page_at
nothing_mapped vb = refl

mappages_lem_example :
    (((vb : ℕ) → 8192 ≤ vb → vb < 8192 + 1 * 4096 → is_on (page empty first vb) ≡ false)
      → (vm' : Vm) × (mappages empty first 8197 10 0x50000000 ap_rw_1_0 ≡ ok (true, vm'))
        × Mapped empty first 8192 0x50000000 ap_rw_1_0 1 vm')
    × (is_on (page empty first 8197) ≡ true
        → mappages empty first 8197 10 0x50000000 ap_rw_1_0 ≡ panic "remap")
mappages_lem_example =
    mappages_lem empty first 8197 10 0x50000000 ap_rw_1_0 empty_role empty-Shaped (omega arith)
      (omega arith) (omega arith) refl (omega arith) (inr refl)

uva2ka-mappages_example :
    (vm' : Vm) × (mappages empty first 8197 10 0x50000000 ap_rw_1_0 ≡ ok (true, vm'))
    × ((vb : ℕ)
        → 8192 ≤ vb
        → vb < 8192 + 1 * 4096
        → uva2ka vm' first vb ≡ ok (some (p2v (0x50000000 + (vb - 8192) / 4096 * 4096))))
uva2ka-mappages_example =
    uva2ka-mappages empty first 8197 10 0x50000000 ap_rw_1_0 empty_role empty-Shaped (omega arith)
      (omega arith) (omega arith) refl (omega arith) (inr refl) (λ vb lo hi. nothing_mapped vb)

-- Page 2 of the directory is mapped.
abbrev one_page : Vm
one_page = record {
  word = λ a.
      if a == first
      then table_entry second
      else if a == second
      then table_entry third
      else if a == third + 16
      then page_entry 0x50000000 ap_rw_1_0
      else 0;
  byte = λ a. 0;
  runs = [];
  kmem = no_heap;
}

abbrev one_role : ℕ → ℕ
one_role f =
    if f == first / 4096
    then 1
    else if f == second / 4096
    then 2
    else if f == third / 4096
    then 8
    else 0

other_word : (x : ℕ) → x ≢ first → x ≢ second → x ≢ third + 16 → one_page.word x ≡ 0
other_word x a b c = rw (test_of_ne x first a, test_of_ne x second b, test_of_ne x (third + 16) c)

on_zero : (v : ℕ) → is_on v ≡ true → v ≢ 0
on_zero v on z = ground arith

only_mid : (i : ℕ) → i < 4 → has_mid one_page.word first i ≡ true → i ≡ 0
only_mid i lt on = elim (Bool-cases (i == 0)) [
  | inl e ↦ eq_of_test i 0 e
  | inr e ↦
      let ne = ne_of_test i 0 e in
      absurd (
        on_zero _ on
          (other_word (first + 8 * i) (λ p. omega arith) (λ p. omega arith) (λ p. omega arith)))
]

only_low : (j : ℕ) → j < 512 → has_low one_page.word first 0 j ≡ true → j ≡ 0
only_low j lt on = elim (Bool-cases (j == 0)) [
  | inl e ↦ eq_of_test j 0 e
  | inr e ↦
      let ne = ne_of_test j 0 e in
      absurd (
        on_zero _ on
          (other_word (second + 8 * j) (λ p. omega arith) (λ p. omega arith) (λ p. omega arith)))
]

-- A table of `one_page` with its role.
abbrev Placed : (t n : ℕ) → Type 0
Placed t n = IsTable t × (one_role (t / 4096) ≡ n)

one-Shaped : Shaped one_page.word one_page.runs first one_role
one-Shaped = record {
  root = (record { aligned = refl; low = omega arith; high = omega arith }, refl);
  mids = λ i lt on.
      subst (λ i. Placed (mid one_page.word first i) (2 + i)) (sym (only_mid i lt on))
        (record { aligned = refl; low = omega arith; high = omega arith }, refl);
  lows = λ i j lt ltj on on2.
      let z = only_mid i lt on in
      let zj = only_low j ltj (ap (λ (i : ℕ). has_low one_page.word first i j) (sym z) ∙ on2) in
      subst (λ i. Placed (low one_page.word first i j) (8 + 512 * i + j)) (sym z)
        (subst (λ j. Placed (low one_page.word first 0 j) (8 + 512 * 0 + j)) (sym zj)
          (record { aligned = refl; low = omega arith; high = omega arith }, refl));
  free = λ r here. cc;
  distinct = tt;
}

page_two : is_on (page one_page first 8200) ≡ true
unfolding page_at page_entry
page_two = refl

clearpteu_lem_example :
    (vm' : Vm) × (clearpteu one_page first 8200 ≡ ok vm')
    × ((vb : ℕ) → vb < 2 ^ 32 → vb / 4096 ≡ 8200 / 4096 → uva2ka vm' first vb ≡ ok none)
    × ((vb : ℕ)
        → vb < 2 ^ 32
        → vb / 4096 ≢ 8200 / 4096
        → page vm' first vb ≡ page one_page first vb)
clearpteu_lem_example = clearpteu_lem one_page first 8200 one_role one-Shaped (omega arith) page_two

-- The read of an entry that does not exist.
uva2ka_faults : uva2ka empty first 0 ≡ panic "read at address 0"
unfolding uva2ka walkpgdir next_table
uva2ka_faults = refl

-- No table for page 5, but one for page 512, which is mapped: deallocuvm goes from address 0x5000 to
-- 0x200000 and on to 0x201000, and leaves page 512 mapped.
abbrev far_page : Vm
far_page = record {
  word = λ a.
      if a == first
      then table_entry second
      else if a == second + 8
      then table_entry third
      else if a == third
      then page_entry 0x50000000 ap_rw_1_0
      else 0;
  byte = λ a. 0;
  runs = [];
  kmem = no_heap;
}

deallocuvm_skips : deallocuvm far_page first 0x201000 0x5000 ≡ ok (0x5000, far_page)
unfolding deallocuvm walkpgdir next_table
deallocuvm_skips = refl
