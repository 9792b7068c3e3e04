-- ===== src/Log/Header.antt =====
-- The header block of src/log.c: what `write_head` stores in it, `read_head` loads from it.
use pinky_os.Prelude.{
  ℕ, zero, suc, ◌+◌, ◌*◌, ◌^◌, ◌≤◌, ◌<◌, ◌≡◌, refl, sym, ap, ◌∙◌, inl, inr, List, arith, ◌==◌,
  eq_of_test, ne_of_test, Bool-cases, length, get_or, set, length-set, get_or-set_self,
  get_or-set_ne,
}
use pinky_os.Ide.{Block}
use pinky_os.Ints.{int_at, set_int, length-set_int, int_at-set_int_self, int_at-set_int_ne}
use pinky_os.Log.{Log, home, load_sectors, store_sectors, load_head, store_head, rounds, log_size}

pub length-store_sectors :
    (b : Block) (lg : Log) (i m : ℕ) → length (store_sectors b lg i m) ≡ length b
unfolding store_sectors
length-store_sectors b lg i zero = refl
length-store_sectors b lg i (suc m) =
    length-store_sectors (set_int b (i + 1) (home lg i)) lg (i + 1) m
    ∙ length-set_int b (i + 1) (home lg i)

module _ (lg : Log) (small : (i : ℕ) → home lg i < 2 ^ 32) where
  -- The words up to the first entry stay.
  stored_before :
      (b : Block) (i m j : ℕ)
      → 4 * (i + m) + 3 < length b
      → j ≤ i
      → int_at (store_sectors b lg i m) j ≡ int_at b j
  unfolding store_sectors
  stored_before b i zero j h le = refl
  stored_before b i (suc m) j h le =
      let len = length-set_int b (i + 1) (home lg i) in
      stored_before (set_int b (i + 1) (home lg i)) (i + 1) m j (omega arith) (omega arith)
      ∙ int_at-set_int_ne b (i + 1) (home lg i) j (omega arith) (λ e. omega arith)

  -- Each entry is the word after its own number.
  stored_at :
      (b : Block) (i m j : ℕ)
      → 4 * (i + m) + 3 < length b
      → i ≤ j
      → j < i + m
      → int_at (store_sectors b lg i m) (j + 1) ≡ home lg j
  unfolding store_sectors
  stored_at b i zero j h le lt = absurd (omega arith)
  stored_at b i (suc m) j h le lt =
      let len = length-set_int b (i + 1) (home lg i) in
      let b' = set_int b (i + 1) (home lg i) in
      elim (Bool-cases (j == i)) [
        | inl e ↦
            let at = eq_of_test j i e in
            stored_before b' (i + 1) m (j + 1) (omega arith) (omega arith)
            ∙ ap (λ (x : ℕ). int_at b' (x + 1)) at
            ∙ int_at-set_int_self b (i + 1) (home lg i) (omega arith) (small i)
            ∙ ap (home lg) (sym at)
        | inr e ↦
            let ne = ne_of_test j i e in
            stored_at b' (i + 1) m j (omega arith) (omega arith) (omega arith)
      ]

loaded_before :
    (b : Block) (xs : List ℕ) (i m j : ℕ)
    → j < i
    → get_or (load_sectors b xs i m) j 0 ≡ get_or xs j 0
unfolding load_sectors
loaded_before b xs i zero j h = refl
loaded_before b xs i (suc m) j h =
    loaded_before b (set xs i (int_at b (i + 1))) (i + 1) m j (omega arith)
    ∙ get_or-set_ne xs i j (int_at b (i + 1)) 0 (λ e. omega arith)

loaded_at :
    (b : Block) (xs : List ℕ) (i m j : ℕ)
    → i + m ≤ length xs
    → i ≤ j
    → j < i + m
    → get_or (load_sectors b xs i m) j 0 ≡ int_at b (j + 1)
unfolding load_sectors
loaded_at b xs i zero j h le lt = absurd (omega arith)
loaded_at b xs i (suc m) j h le lt =
    let w = int_at b (i + 1) in
    let len = length-set xs i w in
    elim (Bool-cases (j == i)) [
      | inl e ↦
          let at = eq_of_test j i e in
          loaded_before b (set xs i w) (i + 1) m j (omega arith)
          ∙ ap (λ (x : ℕ). get_or (set xs i w) x 0) at
          ∙ get_or-set_self xs i w 0 (omega arith)
          ∙ ap (λ (x : ℕ). int_at b (x + 1)) (sym at)
      | inr e ↦
          let ne = ne_of_test j i e in
          loaded_at b (set xs i w) (i + 1) m j (omega arith) (omega arith) (omega arith)
    ]

pub rounds_small : (n : ℕ) → n ≤ log_size → rounds n ≡ n
rounds_small n h = ground arith

-- A header of at most LOGSIZE sector numbers of 32 bits, stored in a block of 512 bytes, is loaded
-- as it was stored into a `log` with LOGSIZE entries: the count, and each entry that it counts.
pub load_head-store_head :
    (lg old : Log) (b : Block)
    → length b ≡ 512
    → lg.n ≤ log_size
    → length old.sectors ≡ log_size
    → ((i : ℕ) → home lg i < 2 ^ 32)
    → ((load_head (store_head b lg) old).n ≡ lg.n)
      × ((i : ℕ) → i < lg.n → home (load_head (store_head b lg) old) i ≡ home lg i)
unfolding load_head store_head
load_head-store_head lg old b whole few room small =
    let len = length-set_int b 0 lg.n in
    let b0 = set_int b 0 lg.n in
    let b1 = store_sectors b0 lg 0 lg.n in
    let count : int_at b1 0 ≡ lg.n =
      (stored_before lg small b0 0 lg.n 0 (omega arith) (omega arith)
        ∙ int_at-set_int_self b 0 lg.n (omega arith) (omega arith)) in
    rw (rounds_small lg.n few, count, rounds_small lg.n few)
      (
        refl,
        λ i h.
            loaded_at b1 old.sectors 0 lg.n i (omega arith) (omega arith) (omega arith)
            ∙ stored_at lg small b0 0 lg.n i (omega arith) (omega arith) (omega arith),
      )

pub length-store_head : (b : Block) (lg : Log) → length (store_head b lg) ≡ length b
unfolding store_head
length-store_head b lg =
    length-store_sectors (set_int b 0 lg.n) lg 0 (rounds lg.n) ∙ length-set_int b 0 lg.n

-- The header of an empty log counts no entry.
pub empty_head :
    (b : Block) (lg : Log) → length b ≡ 512 → int_at (store_head b (record lg { n = 0 })) 0 ≡ 0
unfolding store_head store_sectors
empty_head b lg whole = int_at-set_int_self b 0 0 (omega arith) (omega arith)

-- The header of a log that is emptied keeps its entries.
pub emptied_head :
    (b : Block) (lg : Log)
    → length b ≡ 512
    → lg.n ≤ log_size
    → ((i : ℕ) → home lg i < 2 ^ 32)
    → (i : ℕ) → i < lg.n
    → int_at (store_head (store_head b lg) (record lg { n = 0 })) (i + 1) ≡ home lg i
unfolding store_head store_sectors
emptied_head b lg whole few small i h =
    let b0 = set_int b 0 lg.n in
    let len = length-set_int b 0 lg.n in
    let all = length-store_sectors b0 lg 0 lg.n in
    rw (rounds_small lg.n few) (
      int_at-set_int_ne (store_sectors b0 lg 0 lg.n) 0 0 (i + 1) (omega arith) (λ e. omega arith)
      ∙ stored_at lg small b0 0 lg.n i (omega arith) (omega arith) (omega arith))
