-- ===== src/Bio/Rewrite.antt =====
-- `bread`, a change of the bytes, `bwrite` and `brelse`, one after another, as src/log.c calls them,
-- on a cache of src/bio.c whose buffers are in no other process's hands.
use pinky_os.Prelude.{
  ℕ, ◌≤◌, ◌<◌, ◌≡◌, refl, ap, ◌∙◌, ◌≢◌, inl, inr, Bool, true, false, List, [], ◌∷◌, arith, ◌==◌,
  if◌then◌else◌, test_of_ne, eq_self, length, set, get_or-set_self,
}
use pinky_os.Outcome.{Outcome, ok, panic, waits}
use pinky_os.Ide.{Block, Buf, sector_at}
use pinky_os.Bio.{Disk, List, Bool, Store, bread, bwrite, brelse, fill, is_free}
use pinky_os.Bio.Slots.{has, count, count-remove, has-front}
use pinky_os.Bio.Coherence.{visible_at, IsCoherent, visible, visible_out, sector_cases}
use pinky_os.Bio.Get.{Got, Locked, Reads, bread_lem}
use pinky_os.Bio.Transfer.{
  Holding, Got-Holding, Written, bwrite_lem, fill_lem, released, brelse_lem,
}

-- The cache is coherent, no buffer is in use, and two can be taken.
pub record Calm (s : Store) : Type 0 where
  pub coherent : IsCoherent s
  pub idle : (i : ℕ) → has i s.mru ≡ true → (s.buf i).busy ≡ false
  pub room : 2 ≤ count is_free s.buf s.mru

pub Reads-ok :
    (s : Store) (k : ℕ) (o : Outcome (ℕ × Store))
    → Reads s k o
    → (Locked s k → ⊥)
    → 1 ≤ count is_free s.buf s.mru
    → (out : ℕ × Store) × (o ≡ ok out) × Got s k out
Reads-ok s k (ok out) r l c = (out, refl, r)
Reads-ok s k waits r l c = absurd (l r)
Reads-ok s k (panic m) r l c = absurd (omega arith)

pub bread-Calm :
    {s : Store} {k : ℕ}
    → Calm s
    → k < length s.disk
    → (out : ℕ × Store) × (bread s 1 k ≡ ok out) × Got s k out
bread-Calm {s} {k} c range =
    let room = c.room in
    Reads-ok s k (bread s 1 k) (bread_lem s k c.coherent range)
      (λ (i, h, f, b). ground (arith, c.idle i h)) (omega arith)

-- With one buffer taken, another sector can still be read.
pub bread-Got :
    {s : Store} {k j : ℕ} {out : ℕ × Store}
    → Calm s
    → Got s k out
    → j ≢ k
    → j < length s.disk
    → (o : ℕ × Store) × (bread out.1 1 j ≡ ok o) × Got out.1 j o
bread-Got {s} {k} {j} {out} c g ne range =
    let room = c.room in
    let left = g.room in
    let t = out.1 in
    Reads-ok t j (bread t 1 j) (bread_lem t j g.coherent (rw g.disk_kept range))
      (λ (i, h, f, b). ground (
        arith,
        g.others i,
        g.sector,
        ap t.buf {x = i} {y = out.0},
        c.idle i,
        ap (has i) g.mru_kept,
      ))
      (omega arith)

-- A buffer that is not dirty holds what the disk has.
pub Got-settled :
    {s : Store} {k : ℕ} {out : ℕ × Store}
    → IsCoherent s
    → Got s k out
    → (out.1.buf out.0).dirty ≡ false
    → (out.1.buf out.0).bytes ≡ sector_at s.disk k
Got-settled {s} {k} {out} c g clean = elim (sector_cases s k c) [
  | inl (j, h, v, d, e) ↦
      (let same : j ≡ out.0 = ground (
        arith,
        g.others j,
        g.coherent.unique j out.0,
        g.sector,
        g.dev,
        g.listed,
        ap (has j) g.mru_kept,
      ) in
        ground (
          arith,
          g.bytes,
          visible_at s j c h v,
          c.clean j h v,
          ap s.buf same,
          g.dirty_kept,
          g.was_idle,
          ap (visible s) e,
          ap (sector_at s.disk) e,
        ))
  | inr absent ↦ g.bytes ∙ visible_out s k absent
]

-- If every free slot stays free, the number of them does not fall.
pub count_mono :
    (test : Buf → Bool) (f g : ℕ → Buf) (is : List ℕ)
    → ((i : ℕ) → has i is ≡ true → test (f i) ≡ true → test (g i) ≡ true)
    → count test f is ≤ count test g is
count_mono test f g [] h = omega arith
count_mono test f g (i ∷ is) h =
    let rest = count_mono test f g is (λ j hj. h j (ground arith)) in ground (arith, h i)

module _ {s t : Store} (c : Calm s) (coherent : IsCoherent t)
    (listing : (f : ℕ → Buf) → count is_free f t.mru ≡ count is_free f s.mru) where
  -- A cache in which every buffer is idle again and no free one was lost is calm.
  pub Calm-again :
      ((j : ℕ) → has j t.mru ≡ true → (t.buf j).busy ≡ false)
      → ((j : ℕ) → has j s.mru ≡ true → is_free (s.buf j) ≡ true → is_free (t.buf j) ≡ true)
      → Calm t
  Calm-again idle free = record {
    coherent = coherent;
    idle = idle;
    room =
        (let more = count_mono is_free s.buf t.buf s.mru free in
          let same = listing t.buf in let room = c.room in omega arith);
  }

-- A calm cache over a disk, in which the sectors are seen as given.
pub record Leaves (disk : Disk) (view : ℕ → Block) (t : Store) : Type 0 where
  pub calm : Calm t
  pub disk_is : t.disk ≡ disk
  pub view_is : (k : ℕ) → visible t k ≡ view k

pub settled_at :
    {s : Store} {k : ℕ} {out : ℕ × Store}
    → IsCoherent s
    → Got s k out
    → (out.1.buf out.0).dirty ≡ false
    → (out.1.buf out.0).bytes ≡ sector_at out.1.disk (out.1.buf out.0).sector
settled_at c g clean = rw (g.disk_kept, g.sector) (Got-settled c g clean)

-- A sector is read and its buffer released.
pub read_back :
    {s : Store} {k : ℕ} {out : ℕ × Store}
    → Calm s
    → Got s k out
    → (t : Store) × (brelse out.1 out.0 ≡ ok t) × Leaves s.disk (visible s) t
read_back {s} {k} {out} c g =
    let i = out.0 in
    let r = brelse_lem (Got-Holding g) (settled_at c.coherent g) in
    let member = λ (j : ℕ). has-front i j out.1.mru g.listed ∙ ap (has j) g.mru_kept in
    (
      released out.1 i,
      r.0,
      record {
        calm =
            Calm-again c r.1
              (λ f.
                count-remove is_free f i out.1.mru g.coherent.distinct g.listed
                ∙ ap (count is_free f) g.mru_kept)
              (λ j h. ground (arith, g.others j, c.idle j, member j))
              (λ j h f. ground (arith, g.others j, g.dirty_kept, ap s.buf {x = j} {y = i}));
        disk_is = g.disk_kept;
        view_is = λ j. r.2 j ∙ g.seen j;
      },
    )

abbrev pub overlay : (ℕ → Block) → ℕ → Block → ℕ → Block
overlay view k bytes j = if j == k then bytes else view j

pub fill-other : (s : Store) (i j : ℕ) (bytes : Block) → j ≢ i → (fill s i bytes).buf j ≡ s.buf j
fill-other s i j bytes ne = rw (test_of_ne j i ne)

-- The holder of a buffer, the caller of `bread`, changes its bytes and writes it.
pub write_held :
    {s : Store} {k : ℕ} {out : ℕ × Store} (bytes : Block)
    → Got s k out
    → (u : Store) × (bwrite (fill out.1 out.0 bytes) out.0 ≡ ok u)
      × Written (fill out.1 out.0 bytes) out.0 u
      × (u.disk ≡ set s.disk k bytes)
      × ((j : ℕ) → visible u j ≡ overlay (visible s) k bytes j)
write_held {s} {k} {out} bytes g =
    let f = fill_lem bytes (Got-Holding g) in
    let (u, e, w) = bwrite_lem f.0 in
    (
      u,
      e,
      w,
      w.disk ∙ rw (eq_self out.0, g.disk_kept, g.sector),
      λ j. w.seen j ∙ f.1 j ∙ rw (g.sector, g.seen j),
    )

-- What is written is on the disk.
pub Written-settled :
    {s : Store} {i : ℕ} {t : Store}
    → Holding s i
    → Written s i t
    → (t.buf i).bytes ≡ sector_at t.disk (t.buf i).sector
Written-settled {s} {i} {t} h w = rw (
  w.bytes,
  w.sector,
  w.disk,
  get_or-set_self s.disk (s.buf i).sector (s.buf i).bytes []
      (h.coherent.in_range i h.listed h.valid).1,
)

-- A sector is read, changed, written and its buffer released.
pub rewrite :
    {s : Store} {k : ℕ} {out : ℕ × Store} (bytes : Block)
    → Calm s
    → Got s k out
    → (u : Store) × (t : Store) × (bwrite (fill out.1 out.0 bytes) out.0 ≡ ok u)
      × (brelse u out.0 ≡ ok t)
      × Leaves (set s.disk k bytes) (overlay (visible s) k bytes) t
rewrite {s} {k} {out} bytes c g =
    let i = out.0 in
    let (u, e, w, d, v) = write_held bytes g in
    let r = brelse_lem w.holding (λ clean. Written-settled (fill_lem bytes (Got-Holding g)).0 w) in
    let mru_is : u.mru ≡ s.mru = w.mru_kept ∙ g.mru_kept in
    let member = λ (j : ℕ). has-front i j u.mru w.holding.listed ∙ ap (has j) mru_is in
    let other =
      λ (j : ℕ) (ne : j ≢ i). w.others j ne ∙ fill-other out.1 i j bytes ne ∙ g.others j ne in
    (
      u,
      released u i,
      e,
      r.0,
      record {
        calm =
            Calm-again c r.1
              (λ f.
                count-remove is_free f i u.mru w.holding.coherent.distinct w.holding.listed
                ∙ ap (count is_free f) mru_is)
              (λ j h. ground (arith, other j, c.idle j, member j))
              (λ j h f. ground (arith, other j, w.clean, ap s.buf {x = j} {y = i}));
        disk_is = d;
        view_is = λ j. r.2 j ∙ v j;
      },
    )
