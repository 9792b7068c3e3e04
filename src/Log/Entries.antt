-- ===== src/Log/Entries.antt =====
-- The entry that log_write of src/log.c takes for a sector, and the entries after it.
use pinky_os.Prelude.{
  ℕ, zero, suc, ◌+◌, ◌≤◌, ◌<◌, ◌≡◌, refl, sym, ap, ◌∙◌, ◌≢◌, inl, inr, arith, ◌==◌, if◌then◌else◌,
  eq_of_test, ne_of_test, Bool-cases, length, set, get_or-set,
}
use pinky_os.Log.{Log, home, entry, log_size}

-- Entry e is for sector k, and is the only one among the n' that there are with it.
pub record Taken (lg : Log) (k e n' : ℕ) : Type 0 where
  pub below : e ≤ lg.n
  pub counted : e < n'
  pub grows : lg.n ≤ n'
  pub others : (i : ℕ) → i < n' → i ≢ e → (i < lg.n) × (home lg i ≢ k)
  pub new : e ≡ lg.n → n' ≡ lg.n + 1
  pub again : e ≢ lg.n → (n' ≡ lg.n) × (home lg e ≡ k)

-- No sector has two entries.
abbrev pub Once : Log → Type 0
Once lg = (i j : ℕ) → i < lg.n → j < lg.n → home lg i ≡ home lg j → i ≡ j

entry-found :
    (lg : Log) (k i m : ℕ)
    → (i ≤ entry lg k i m)
      × (entry lg k i m ≤ i + m)
      × (entry lg k i m ≢ i + m → home lg (entry lg k i m) ≡ k)
      × ((j : ℕ) → i ≤ j → j < entry lg k i m → home lg j ≢ k)
unfolding entry
entry-found lg k i zero =
    (omega arith, omega arith, λ ne. absurd (ne (omega arith)), λ j a b. absurd (omega arith))
entry-found lg k i (suc m) =
    let (low, high, at, before) = entry-found lg k (i + 1) m in
    elim (Bool-cases (home lg i == k)) [
      | inl e ↦ rw e (
        omega arith,
        omega arith,
        λ ne. eq_of_test (home lg i) k e,
        λ j a b. absurd (omega arith),
      )
      | inr e ↦
          let ne = ne_of_test (home lg i) k e in
          rw e (
            omega arith,
            omega arith,
            λ far. at (λ p. far (omega arith)),
            λ j a b. ground (arith, before j, ne, ap (home lg) {x = j} {y = i}),
          )
    ]

-- How many entries there are after `log_write`.
abbrev pub next_n : Log → (e : ℕ) → ℕ
next_n lg e = if e == lg.n then lg.n + 1 else lg.n

pub entry-Taken :
    (lg : Log) (k : ℕ) → Once lg → Taken lg k (entry lg k 0 lg.n) (next_n lg (entry lg k 0 lg.n))
entry-Taken lg k once =
    let e = entry lg k 0 lg.n in
    let (low, high, at, before) = entry-found lg k 0 lg.n in
    elim (Bool-cases (e == lg.n)) [
      | inl t ↦
          let same = eq_of_test e lg.n t in
          rw t (record {
            below = omega arith;
            counted = omega arith;
            grows = omega arith;
            others = λ i h ne. (omega arith, before i (omega arith) (omega arith));
            new = λ p. refl;
            again = λ ne. absurd (ne same);
          })
      | inr f ↦
          let ne = ne_of_test e lg.n f in
          let here = at (λ p. ne (omega arith)) in
          rw f (record {
            below = omega arith;
            counted = omega arith;
            grows = omega arith;
            others = λ i h far. (h, λ p. far (once i e h (omega arith) (p ∙ sym here)));
            new = λ p. absurd (ne p);
            again = λ p. (refl, here);
          })
    ]

-- The log with the entry.
abbrev pub entered : Log → (k : ℕ) → Log
entered lg k =
    let e = entry lg k 0 lg.n in record lg { sectors = set lg.sectors e k; n = next_n lg e }

pub home-entered :
    (lg : Log) (k i : ℕ)
    → length lg.sectors ≡ log_size
    → entry lg k 0 lg.n < log_size
    → home (entered lg k) i ≡ (if i == entry lg k 0 lg.n then k else home lg i)
home-entered lg k i room h = get_or-set lg.sectors (entry lg k 0 lg.n) i k (omega arith)

pub entered-Once :
    (lg : Log) (k : ℕ)
    → length lg.sectors ≡ log_size
    → lg.n < log_size
    → Once lg
    → Once (entered lg k)
entered-Once lg k room few once i j hi hj same =
    let t = entry-Taken lg k once in
    let b = t.below in
    let at = λ (x : ℕ). home-entered lg k x room (omega arith) in
    ground (arith, at i, at j, t.others i hi, t.others j hj, once i j)
