-- ===== src/Fs/Inodes.antt =====
-- The inodes on the disk in src/fs.c: what `iupdate` stores in a block, `ilock` loads from it.
use pinky_os.Prelude.{
  ℕ, zero, suc, ◌+◌, ◌*◌, ◌%◌, ◌^◌, ◌≤◌, ◌<◌, ◌≡◌, refl, sym, ap, ◌∙◌, ◌≢◌, ◌⊎◌, inl, inr, List, [],
  ◌∷◌, arith, length, get_or,
}
use pinky_os.Ide.{Block}
use pinky_os.Ints.{int_at, set_int, length-set_int, int_at-set_int_self, int_at-set_int_ne}
use pinky_os.Fs.{Inode}
use pinky_os.Fs.Icache.{low_half, high_half, dinode, words_at, set_words, load_inode, store_inode}

set_words-outside :
    (b : Block) (w : ℕ) (vs : List ℕ) (k : ℕ)
    → 4 * (w + length vs) ≤ length b
    → k < w ⊎ w + length vs ≤ k
    → int_at (set_words b w vs) k ≡ int_at b k
unfolding set_words
set_words-outside b w [] k room out = refl
set_words-outside b w (v ∷ vs) k room out =
    let len = length-set_int b w v in
    let after : k < w + 1 ⊎ (w + 1) + length vs ≤ k = elim out [
      | inl l ↦ inl (omega arith)
      | inr l ↦ inr (omega arith)
    ] in
    let ne : k ≢ w = elim out [ inl l ↦ λ e. omega arith | inr l ↦ λ e. omega arith ] in
    set_words-outside (set_int b w v) (w + 1) vs k (omega arith) after
    ∙ int_at-set_int_ne b w v k (omega arith) ne

set_words-inside :
    (b : Block) (w : ℕ) (vs : List ℕ) (i : ℕ)
    → 4 * (w + length vs) ≤ length b
    → ((j : ℕ) → get_or vs j 0 < 2 ^ 32)
    → i < length vs
    → int_at (set_words b w vs) (w + i) ≡ get_or vs i 0
unfolding set_words
set_words-inside b w [] i room small h = absurd (omega arith)
set_words-inside b w (v ∷ vs) zero room small h =
    let len = length-set_int b w v in
    ap (int_at (set_words (set_int b w v) (w + 1) vs)) {x = w + 0} {y = w} (omega arith)
    ∙ set_words-outside (set_int b w v) (w + 1) vs w (omega arith) (inl (omega arith))
    ∙ int_at-set_int_self b w v (omega arith) (small 0)
set_words-inside b w (v ∷ vs) (suc i) room small h =
    let len = length-set_int b w v in
    let rest =
      set_words-inside (set_int b w v) (w + 1) vs i (omega arith) (λ j. small (suc j))
        (omega arith) in
    ap (int_at (set_words (set_int b w v) (w + 1) vs)) {x = w + suc i} {y = w + 1 + i} (omega arith)
    ∙ rest

-- Words that are known one by one.
words_at-list :
    (b : Block) (w : ℕ) (vs : List ℕ)
    → ((i : ℕ) → i < length vs → int_at b (w + i) ≡ get_or vs i 0)
    → words_at b w (length vs) ≡ vs
unfolding words_at
words_at-list b w [] h = refl
words_at-list b w (v ∷ vs) h = rw (
  ap (int_at b) {x = w} {y = w + 0} (omega arith) ∙ h 0 (omega arith),
  words_at-list b (w + 1) vs (λ i l.
      ap (int_at b) {x = w + 1 + i} {y = w + suc i} (omega arith) ∙ h (suc i) (omega arith)),
)

words_at-same :
    (b c : Block) (w n : ℕ)
    → ((i : ℕ) → i < n → int_at b (w + i) ≡ int_at c (w + i))
    → words_at b w n ≡ words_at c w n
unfolding words_at
words_at-same b c w zero h = refl
words_at-same b c w (suc n) h = rw (
  ap (int_at b) {x = w} {y = w + 0} (omega arith)
      ∙ h 0 (omega arith)
      ∙ ap (int_at c) {x = w + 0} {y = w} (omega arith),
  words_at-same b c (w + 1) n (λ i l.
      ap (int_at b) {x = w + 1 + i} {y = w + suc i} (omega arith)
      ∙ h (suc i) (omega arith)
      ∙ ap (int_at c) {x = w + suc i} {y = w + 1 + i} (omega arith)),
)

-- An inode whose fields have the sizes that `struct dinode` gives them.
pub record Fits (ip : Inode) : Type 0 where
  pub kind : ip.kind < 2 ^ 16
  pub major : ip.major < 2 ^ 16
  pub minor : ip.minor < 2 ^ 16
  pub nlink : ip.nlink < 2 ^ 16
  pub size : ip.size < 2 ^ 32
  pub count : length ip.addrs ≡ 13
  pub addrs : (i : ℕ) → get_or ip.addrs i 0 < 2 ^ 32

abbrev image : Inode → List ℕ
image ip = (ip.kind + 2 ^ 16 * ip.major) ∷ (ip.minor + 2 ^ 16 * ip.nlink) ∷ ip.size ∷ ip.addrs

image_small : (ip : Inode) → Fits ip → (i : ℕ) → get_or (image ip) i 0 < 2 ^ 32
image_small ip f zero = let k = f.kind in let m = f.major in omega arith
image_small ip f (suc zero) = let k = f.minor in let m = f.nlink in omega arith
image_small ip f (suc (suc zero)) = f.size
image_small ip f (suc (suc (suc i))) = f.addrs i

halves : (a b : ℕ) → a < 2 ^ 16 → (low_half (a + 2 ^ 16 * b) ≡ a) × (high_half (a + 2 ^ 16 * b) ≡ b)
halves a b h = (omega arith, omega arith)

-- An inode as it is loaded, from its words.
loaded :
    (b : Block) (old ip : Inode)
    → Fits ip
    → ((i : ℕ) → i < 16 → int_at b (dinode old.inum + i) ≡ get_or (image ip) i 0)
    → load_inode b old ≡ record ip {
      dev = old.dev;
      inum = old.inum;
      ref = old.ref;
      busy = old.busy;
      valid = old.valid;
    }
unfolding load_inode
loaded b old ip f h =
    let w = dinode old.inum in
    let (k, ma) = halves ip.kind ip.major f.kind in
    let (mi, nl) = halves ip.minor ip.nlink f.minor in
    let count = f.count in
    let tail = words_at-list b (w + 3) ip.addrs (λ i l.
      ap (int_at b) {x = w + 3 + i} {y = w + suc (suc (suc i))} (omega arith)
      ∙ h (suc (suc (suc i))) (omega arith)) in
    let first : int_at b w ≡ ip.kind + 2 ^ 16 * ip.major =
      (ap (int_at b) {x = w} {y = w + 0} (omega arith) ∙ h 0 (omega arith)) in
    rw (
      first,
      h 1 (omega arith),
      h 2 (omega arith),
      k,
      ma,
      mi,
      nl,
      ap (words_at b (w + 3)) (sym count) ∙ tail,
    )

apart : (i j : ℕ) → i % 8 ≢ j % 8 → (dinode i + 16 ≤ dinode j) ⊎ (dinode j + 16 ≤ dinode i)
apart i j h = ground arith

module _ (ip old : Inode) (b : Block) (whole : length b ≡ 512) (f : Fits ip) where
  room : 4 * (dinode ip.inum + length (image ip)) ≤ length b
  room = let count = f.count in omega arith

  own :
      old.inum ≡ ip.inum
      → load_inode (store_inode ip b) old
        ≡ record ip { dev = old.dev; ref = old.ref; busy = old.busy; valid = old.valid }
  unfolding store_inode
  own e =
      let count = f.count in
      loaded (store_inode ip b) old ip f (λ i l.
        ap (λ (n : ℕ). int_at (store_inode ip b) (dinode n + i)) e
        ∙ set_words-inside b (dinode ip.inum) (image ip) i room (image_small ip f) (omega arith))
      ∙ ap
          (λ (n : ℕ). record ip {
            dev = old.dev;
            inum = n;
            ref = old.ref;
            busy = old.busy;
            valid = old.valid;
          })
          e

  others : old.inum % 8 ≢ ip.inum % 8 → load_inode (store_inode ip b) old ≡ load_inode b old
  unfolding load_inode store_inode
  others ne =
      let count = f.count in
      let w = dinode old.inum in
      let far = apart old.inum ip.inum ne in
      let kept : (i : ℕ) → i < 16 → int_at (store_inode ip b) (w + i) ≡ int_at b (w + i) = (λ i l.
        set_words-outside b (dinode ip.inum) (image ip) (w + i) room
          (elim far [ inl k ↦ inl (omega arith) | inr k ↦ inr (omega arith) ])) in
      let tail = words_at-same (store_inode ip b) b (w + 3) 13 (λ i l.
        ap (int_at (store_inode ip b)) {x = w + 3 + i} {y = w + (3 + i)} (omega arith)
        ∙ kept (3 + i) (omega arith)
        ∙ ap (int_at b) {x = w + (3 + i)} {y = w + 3 + i} (omega arith)) in
      let first : int_at (store_inode ip b) w ≡ int_at b w =
        (ap (int_at (store_inode ip b)) {x = w} {y = w + 0} (omega arith)
          ∙ kept 0 (omega arith)
          ∙ ap (int_at b) {x = w + 0} {y = w} (omega arith)) in
      rw (first, kept 1 (omega arith), kept 2 (omega arith), tail)

-- An inode whose fields have the sizes of `struct dinode`, stored by `iupdate` in a block of 512
-- bytes: `ilock` loads into a slot for that inode number the fields as they were stored, and for an
-- inode number of another place in the block what it loaded before.
pub load_inode-store_inode :
    (ip old : Inode) (b : Block)
    → length b ≡ 512
    → Fits ip
    → (old.inum ≡ ip.inum
        → load_inode (store_inode ip b) old
          ≡ record ip { dev = old.dev; ref = old.ref; busy = old.busy; valid = old.valid })
      × (old.inum % 8 ≢ ip.inum % 8 → load_inode (store_inode ip b) old ≡ load_inode b old)
load_inode-store_inode ip old b whole f = (own ip old b whole f, others ip old b whole f)
