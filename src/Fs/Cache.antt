-- ===== src/Fs/Cache.antt =====
-- The inode cache of src/fs.c: each inode has one slot, and `iget` counts one reference more.
use pinky_os.Prelude.{
  ℕ, zero, suc, ◌+◌, ◌≤◌, ◌<◌, ◌≡◌, ap, ◌≢◌, inl, inr, false, none, some, arith, test_of_ne,
  eq_self, Option-cases,
}
use pinky_os.Outcome.{Outcome, ok, panic, waits}
use pinky_os.Fs.{Inode, Fs, put_inode}
use pinky_os.Fs.Icache.{ninode, cached, first_unused, iget}

-- A slot that has an inode in use.
abbrev pub Has : (ℕ → Inode) → (dev inum i : ℕ) → Type 0
Has inode dev inum i =
    (i < ninode) × (0 < (inode i).ref) × ((inode i).dev ≡ dev) × ((inode i).inum ≡ inum)

-- No inode is in use in two slots.
abbrev pub IsUnique : (ℕ → Inode) → Type 0
IsUnique inode = (dev inum i j : ℕ) → Has inode dev inum i → Has inode dev inum j → i ≡ j

module _ (inode : ℕ → Inode) (dev inum : ℕ) where
  cached-some :
      (i n j : ℕ)
      → cached inode dev inum i n ≡ some j
      → (j < i + n) × (0 < (inode j).ref) × ((inode j).dev ≡ dev) × ((inode j).inum ≡ inum)
  unfolding cached
  cached-some i zero j e = cc
  cached-some i (suc n) j e = ground (arith, cached-some (i + 1) n j)

  cached-none :
      (i n j : ℕ)
      → cached inode dev inum i n ≡ none
      → i ≤ j
      → j < i + n
      → 0 < (inode j).ref
      → (inode j).dev ≡ dev
      → (inode j).inum ≢ inum
  unfolding cached
  cached-none i zero j e le lt r d = absurd (omega arith)
  cached-none i (suc n) j e le lt r d = ground (
    arith,
    cached-none (i + 1) n j,
    ap (λ (k : ℕ). (inode k).ref) {x = i} {y = j},
    ap (λ (k : ℕ). (inode k).dev) {x = i} {y = j},
    ap (λ (k : ℕ). (inode k).inum) {x = i} {y = j},
  )

  first_unused-some :
      (i n j : ℕ) → first_unused inode i n ≡ some j → (j < i + n) × ((inode j).ref ≡ 0)
  unfolding first_unused
  first_unused-some i zero j e = cc
  first_unused-some i (suc n) j e = ground (arith, first_unused-some (i + 1) n j)

  first_unused-none :
      (i n j : ℕ) → first_unused inode i n ≡ none → i ≤ j → j < i + n → 0 < (inode j).ref
  unfolding first_unused
  first_unused-none i zero j e le lt = absurd (omega arith)
  first_unused-none i (suc n) j e le lt =
      ground (arith, first_unused-none (i + 1) n j, ap (λ (k : ℕ). (inode k).ref) {x = i} {y = j})

-- The slot that `iget` returns, and the cache it leaves.
pub record Got (fs : Fs) (dev inum i : ℕ) (fs' : Fs) : Type 0 where
  pub here : Has fs'.inode dev inum i
  pub counted : (fs'.inode i).ref ≡ (fs.inode i).ref + 1
  pub kept : 0 < (fs.inode i).ref → fs'.inode i ≡ record (fs.inode i) { ref = (fs.inode i).ref + 1 }
  pub recycled : (fs.inode i).ref ≡ 0 → (fs'.inode i).valid ≡ false
  pub others : (j : ℕ) → j ≢ i → fs'.inode j ≡ fs.inode j
  pub unique : IsUnique fs'.inode

abbrev pub Gets : Fs → (dev inum : ℕ) → Outcome (ℕ × Fs) → Type 0
Gets fs dev inum (ok (i, fs')) = Got fs dev inum i fs'
Gets fs dev inum (panic m) =
    (j : ℕ) → j < ninode → (0 < (fs.inode j).ref) × (Has fs.inode dev inum j → ⊥)
Gets fs dev inum waits = ⊥

hit :
    (fs : Fs) (dev inum i : ℕ)
    → IsUnique fs.inode
    → Has fs.inode dev inum i
    → Got fs dev inum i (put_inode fs i (record (fs.inode i) { ref = (fs.inode i).ref + 1 }))
hit fs dev inum i u h = record {
  here = (h.0, rw (eq_self i) (omega arith), rw (eq_self i) h.2, rw (eq_self i) h.3);
  counted = rw (eq_self i);
  kept = λ p. rw (eq_self i);
  recycled = λ z. absurd (let r = h.1 in omega arith);
  others = λ j ne. rw (test_of_ne j i ne);
  unique = λ d n j k hj hk.
      ground (
        arith,
        u d n j k,
        u d n i k,
        u d n j i,
        h,
        ap (λ (m : ℕ). (fs.inode m).dev) {x = j} {y = i},
      );
}

miss :
    (fs : Fs) (dev inum i : ℕ)
    → IsUnique fs.inode
    → ((j : ℕ) → Has fs.inode dev inum j → ⊥)
    → i < ninode
    → (fs.inode i).ref ≡ 0
    → Got fs dev inum i (
        put_inode fs i
          (record (fs.inode i) { dev = dev; inum = inum; ref = 1; busy = false; valid = false }))
miss fs dev inum i u absent range z = record {
  here = (range, rw (eq_self i) (omega arith), rw (eq_self i), rw (eq_self i));
  counted = rw (eq_self i, z);
  kept = λ p. absurd (omega arith);
  recycled = λ p. rw (eq_self i);
  others = λ j ne. rw (test_of_ne j i ne);
  unique = λ d n j k hj hk.
      ground
        (arith, u d n j k, absent j, absent k, ap (λ (m : ℕ). (fs.inode m).dev) {x = j} {y = i});
}

-- Where no inode is in use in two slots, `iget` returns the slot that has the inode, or recycles one
-- that is not in use; it counts one reference more, touches no other slot, and still no inode is in
-- two slots. It panics only when every slot is in use and none has the inode, and never waits.
pub iget_lem : (fs : Fs) (dev inum : ℕ) → IsUnique fs.inode → Gets fs dev inum (iget fs dev inum)
unfolding iget
iget_lem fs dev inum u = elim (Option-cases (cached fs.inode dev inum 0 50)) [
  | inr (i, e) ↦
      let (range, r, d, n) = cached-some fs.inode dev inum 0 50 i e in
      rw (e, Gets) (hit fs dev inum i u (omega arith, r, d, n))
  | inl e ↦
      let absent : (j : ℕ) → Has fs.inode dev inum j → ⊥ = (λ j h.
        cached-none fs.inode dev inum 0 50 j e (omega arith) (let b = h.0 in omega arith) h.1 h.2
          h.3) in
      elim (Option-cases (first_unused fs.inode 0 50)) [
        | inr (i, f) ↦
            let (range, z) = first_unused-some fs.inode dev inum 0 50 i f in
            rw (e, f, Gets) (miss fs dev inum i u absent (omega arith) z)
        | inl f ↦
            rw (e, f, Gets)
              (λ j h. (first_unused-none fs.inode dev inum 0 50 j f (omega arith) h, absent j))
      ]
]
