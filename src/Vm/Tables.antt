-- ===== src/Vm/Tables.antt =====
-- Page tables of src/vm.c that share no table, and what each entry stands for.
use pinky_os.Prelude.{
  ℕ, ◌+◌, ◌-◌, ◌*◌, ◌/◌, ◌%◌, ◌^◌, ◌≤◌, ◌<◌, ◌≡◌, Bool, true, ◌&&◌, List, arith, ltb, leb, ◌==◌,
  if◌then◌else◌,
}
use pinky_os.Bio.Slots.{has, NoDup}
use pinky_os.Vm.{kernbase, v2p, is_on, entry_table, table_entry}

-- The address of a table in kernel memory.
pub record IsTable (a : ℕ) : Type 0 where
  pub aligned : a % 4096 ≡ 0
  pub low : kernbase ≤ a
  pub high : a < 2 ^ 64

-- Slot i of the first level leads to a table of the second, and slot j of that to one of the third.
abbrev pub mid : (ℕ → ℕ) → (pgdir i : ℕ) → ℕ
mid word pgdir i = entry_table (word (pgdir + 8 * i))

abbrev pub has_mid : (ℕ → ℕ) → (pgdir i : ℕ) → Bool
has_mid word pgdir i = is_on (word (pgdir + 8 * i))

abbrev pub low_entry : (ℕ → ℕ) → (pgdir i j : ℕ) → ℕ
low_entry word pgdir i j = mid word pgdir i + 8 * j

abbrev pub low : (ℕ → ℕ) → (pgdir i j : ℕ) → ℕ
low word pgdir i j = entry_table (word (low_entry word pgdir i j))

abbrev pub has_low : (ℕ → ℕ) → (pgdir i j : ℕ) → Bool
has_low word pgdir i j = is_on (word (low_entry word pgdir i j))

-- The page entry at three indices, or 0 where a table is missing.
unfoldable pub page_at : (ℕ → ℕ) → (pgdir i j k : ℕ) → ℕ
page_at word pgdir i j k =
    if has_mid word pgdir i && has_low word pgdir i j then word (low word pgdir i j + 8 * k) else 0

-- Each table has one role only: 0 for a free one, 1 for the first level, 2 + i and 8 + 512 i + j for
-- those below.
pub record Shaped (word : ℕ → ℕ) (runs : List ℕ) (pgdir : ℕ) (role : ℕ → ℕ) : Type 0 where
  pub root : IsTable pgdir × (role (pgdir / 4096) ≡ 1)
  pub mids :
      (i : ℕ)
      → i < 4
      → has_mid word pgdir i ≡ true
      → IsTable (mid word pgdir i) × (role (mid word pgdir i / 4096) ≡ 2 + i)
  pub lows :
      (i j : ℕ)
      → i < 4
      → j < 512
      → has_mid word pgdir i ≡ true
      → has_low word pgdir i j ≡ true
      → IsTable (low word pgdir i j) × (role (low word pgdir i j / 4096) ≡ 8 + 512 * i + j)
  pub free : (r : ℕ) → has r runs ≡ true → IsTable r × (role (r / 4096) ≡ 0)
  pub distinct : NoDup runs

-- An entry leads to the table that it was made of.
pub entry_table-table_entry :
    (t : ℕ) → IsTable t → (entry_table (table_entry t) ≡ t) × (is_on (table_entry t) ≡ true)
entry_table-table_entry t h =
    let a = h.aligned in
    let l = h.low in
    let u = h.high in let v : v2p t ≡ t - kernbase = omega arith in (omega arith, ground (arith, v))

-- A word of a table lies in it.
pub word_in : (t i : ℕ) → IsTable t → i < 512 → ((t + 8 * i) / 4096 ≡ t / 4096)
word_in t i h lt = let a = h.aligned in omega arith

pub word_eq : (t i j : ℕ) → t + 8 * i ≡ t + 8 * j → i ≡ j
word_eq t i j e = omega arith

-- What a cleared table and one changed entry leave at a word.
abbrev pub made : (ℕ → ℕ) → (t e v : ℕ) → ℕ → ℕ
made word t e v x = if x == e then v else if x / 4096 == t / 4096 then 0 else word x

pub clear_range : (t x : ℕ) → IsTable t → (leb t x && ltb x (t + 4096)) ≡ (x / 4096 == t / 4096)
clear_range t x h = let a = h.aligned in ground arith
