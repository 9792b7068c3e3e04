-- ===== src/Vm/Grow.antt =====
-- A table that walkpgdir of src/vm.c adds: the words of the old tables and of the new one.
pub mod Mid
pub mod Low
use pinky_os.Prelude.{
  ℕ, ◌+◌, ◌*◌, ◌/◌, ◌<◌, ◌≡◌, refl, sym, ap, ◌∙◌, ◌≢◌, inl, inr, Bool, true, false, ◌&&◌, List, ◌∷◌,
  arith, ◌==◌, if◌then◌else◌, eq_of_test, ne_of_test, test_of_ne, eq_self, Bool-cases,
}
use mathlib.Core.Path.{subst}
use pinky_os.Bio.Slots.{has}
use pinky_os.Vm.{is_on, entry_table, table_entry}
use pinky_os.Vm.Tables.{
  IsTable, mid, has_mid, low_entry, low, has_low, page_at, Shaped, entry_table-table_entry, word_in,
  word_eq, made,
}

abbrev pub given : (ℕ → ℕ) → (f r : ℕ) → ℕ → ℕ
given role f r x = if x == f then r else role x

pub made-entry : (word : ℕ → ℕ) (t e v : ℕ) → made word t e v e ≡ v
made-entry word t e v = rw (eq_self e)

pub off_zero : is_on 0 ≡ false
off_zero = refl

module _ {word : ℕ → ℕ} {runs : List ℕ} {pgdir t : ℕ} {role : ℕ → ℕ}
    (s : Shaped word (t ∷ runs) pgdir role) (e : ℕ) where
  pub new_table : IsTable t × (role (t / 4096) ≡ 0)
  new_table = s.free t (rw (eq_self t))

  abbrev pub word' : ℕ → ℕ
  word' = made word t e (table_entry t)

  -- The words of the new table, and of those that there were.
  pub in_new : (m : ℕ) → m < 512 → t + 8 * m ≢ e → word' (t + 8 * m) ≡ 0
  in_new m lt ne =
      let f = word_in t m new_table.0 lt in rw (test_of_ne (t + 8 * m) e ne, f, eq_self (t / 4096))

  pub frames : (T : ℕ) → role (T / 4096) ≢ 0 → T / 4096 ≢ t / 4096
  frames T r p = r (ap role p ∙ new_table.1)

  pub in_old :
      (T m : ℕ)
      → IsTable T
      → m < 512
      → role (T / 4096) ≢ 0
      → T + 8 * m ≢ e
      → word' (T + 8 * m) ≡ word (T + 8 * m)
  in_old T m h lt r ne =
      let f = word_in T m h lt in
      rw (test_of_ne (T + 8 * m) e ne, f, test_of_ne (T / 4096) (t / 4096) (frames T r))

  -- A table that there was keeps its role.
  pub given_old :
      (T n : ℕ) → role (T / 4096) ≢ 0 → given role (t / 4096) n (T / 4096) ≡ role (T / 4096)
  given_old T n r = rw (test_of_ne (T / 4096) (t / 4096) (frames T r))

  pub given_new : (n : ℕ) → given role (t / 4096) n (t / 4096) ≡ n
  given_new n = rw (eq_self (t / 4096))

  pub free_again :
      (n r : ℕ) → has r runs ≡ true → IsTable r × (given role (t / 4096) n (r / 4096) ≡ 0)
  free_again n r here =
      let (table, zero_role) = s.free r (ground arith) in
      let out = s.distinct.0 in
      let ne : r ≢ t = (λ p. ground (arith, ap (λ (x : ℕ). has x runs) p)) in
      let far : r / 4096 ≢ t / 4096 =
        (λ p. ne (let a = table.aligned in let b = new_table.0.aligned in omega arith)) in
      (table, rw (test_of_ne (r / 4096) (t / 4096) far) zero_role)

pub both_off :
    (a b c d : Bool) (x y : ℕ)
    → b ≡ false
    → c ≡ false
    → (if a && b then x else 0) ≡ (if c && d then y else 0)
both_off a b c d x y h g = ground arith

pub zero_or :
    (a b c : Bool) (x y : ℕ) → x ≡ 0 → c ≡ false → (if a then x else 0) ≡ (if b && c then y else 0)
zero_or a b c x y h g = ground arith
