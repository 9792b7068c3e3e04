-- ===== src/Bio/CopyOver.antt =====
-- Two sectors read, the first copied over the second, which is written, and both buffers released:
-- what `install_trans` of src/log.c does with the cache of src/bio.c.
use pinky_os.Prelude.{
  ℕ, ◌<◌, ◌≡◌, sym, ap, ◌∙◌, ◌≢◌, false, [], arith, test_of_ne, length, set, get_or-set_ne,
}
use pinky_os.Outcome.{ok}
use pinky_os.Ide.{Buf, sector_at}
use pinky_os.Bio.{Store, bread, bwrite, brelse, fill, is_free}
use pinky_os.Bio.Slots.{has, count, count-remove, has-front}
use pinky_os.Bio.Coherence.{visible}
use pinky_os.Bio.Get.{Got}
use pinky_os.Bio.Transfer.{Holding, Got-Holding, Written, fill_lem, released, brelse_lem}
use pinky_os.Bio.Rewrite.{
  Calm, Leaves, overlay, bread-Calm, bread-Got, Got-settled, Calm-again, fill-other, write_held,
  Written-settled,
}

module _ {s : Store} {k m : ℕ} {src dst : ℕ × Store} (c : Calm s) (ne : m ≢ k) (g : Got s k src)
    (h : Got src.1 m dst) where
  apart : src.0 ≢ dst.0
  apart e = ground (arith, h.was_idle, g.taken, ap src.1.buf e)

  abbrev wrote :
      (u : Store) × (bwrite (fill dst.1 dst.0 (dst.1.buf src.0).bytes) dst.0 ≡ ok u)
      × Written (fill dst.1 dst.0 (dst.1.buf src.0).bytes) dst.0 u
      × (u.disk ≡ set src.1.disk m (dst.1.buf src.0).bytes)
      × ((j : ℕ) → visible u j ≡ overlay (visible src.1) m (dst.1.buf src.0).bytes j)
  wrote = write_held (dst.1.buf src.0).bytes h

  abbrev after : Store
  after = wrote.0

  mru_is : after.mru ≡ s.mru
  mru_is = wrote.2.mru_kept ∙ h.mru_kept ∙ g.mru_kept

  untouched : (j : ℕ) → j ≢ dst.0 → after.buf j ≡ src.1.buf j
  untouched j ne =
      wrote.2.others j ne ∙ fill-other dst.1 dst.0 j (dst.1.buf src.0).bytes ne ∙ h.others j ne

  -- The first buffer is still held, as it was read.
  source_held : Holding after src.0
  source_held = record {
    coherent = wrote.2.holding.coherent;
    listed = ap (has src.0) (mru_is ∙ sym g.mru_kept) ∙ g.listed;
    taken = ap (λ (b : Buf). b.busy) (untouched src.0 apart) ∙ g.taken;
    valid = ap (λ (b : Buf). b.valid) (untouched src.0 apart) ∙ g.valid;
  }

  source_settled :
      (after.buf src.0).dirty ≡ false
      → (after.buf src.0).bytes ≡ sector_at after.disk (after.buf src.0).sector
  source_settled clean =
      let same = untouched src.0 apart in
      let old = Got-settled c.coherent g (sym (ap (λ (b : Buf). b.dirty) same) ∙ clean) in
      rw
        (
          same,
          wrote.3,
          g.sector,
          get_or-set_ne src.1.disk m k (dst.1.buf src.0).bytes [] ne,
          g.disk_kept,
        )
        old

  abbrev between : Store
  between = released after src.0

  target_same : between.buf dst.0 ≡ after.buf dst.0
  target_same = rw (test_of_ne dst.0 src.0 (λ e. apart (sym e)))

  target_held : Holding between dst.0
  target_held = record {
    coherent = (brelse_lem source_held source_settled).1;
    listed = has-front src.0 dst.0 after.mru source_held.listed ∙ wrote.2.holding.listed;
    taken = ap (λ (b : Buf). b.busy) target_same ∙ wrote.2.holding.taken;
    valid = ap (λ (b : Buf). b.valid) target_same ∙ wrote.2.holding.valid;
  }

  target_settled :
      (between.buf dst.0).dirty ≡ false
      → (between.buf dst.0).bytes ≡ sector_at between.disk (between.buf dst.0).sector
  target_settled clean =
      rw target_same (Written-settled (fill_lem (dst.1.buf src.0).bytes (Got-Holding h)).0 wrote.2)

  abbrev final : Store
  final = released between dst.0

  final-Calm : Calm final
  final-Calm =
      let member = λ (j : ℕ).
        has-front dst.0 j between.mru target_held.listed
        ∙ has-front src.0 j after.mru source_held.listed
        ∙ ap (has j) mru_is in
      Calm-again c (brelse_lem target_held target_settled).1
        (λ f.
          count-remove is_free f dst.0 between.mru target_held.coherent.distinct target_held.listed
          ∙ count-remove is_free f src.0 after.mru source_held.coherent.distinct source_held.listed
          ∙ ap (count is_free f) mru_is)
        (λ j hj. ground (arith, untouched j, g.others j, c.idle j, member j))
        (λ j hj f. ground (
          arith,
          untouched j,
          g.others j,
          g.dirty_kept,
          wrote.2.clean,
          ap s.buf {x = j} {y = src.0},
          ap after.buf {x = j} {y = dst.0},
          ap after.buf {x = j} {y = src.0},
          apart,
        ))

-- Both reads succeed, and so do the write and the releases; the second sector then holds what the
-- first is seen to hold.
pub copy_over :
    {s : Store} {k m : ℕ}
    → Calm s
    → m ≢ k
    → k < length s.disk
    → m < length s.disk
    → (src : ℕ × Store) × (dst : ℕ × Store) × (u : Store) × (v : Store) × (t : Store) × (bread s 1 k
        ≡ ok src)
      × (bread src.1 1 m ≡ ok dst)
      × (bwrite (fill dst.1 dst.0 (dst.1.buf src.0).bytes) dst.0 ≡ ok u)
      × (brelse u src.0 ≡ ok v)
      × (brelse v dst.0 ≡ ok t)
      × Leaves (set s.disk m (visible s k)) (overlay (visible s) m (visible s k)) t
copy_over {s} {k} {m} c ne rk rm =
    let (src, e1, g) = bread-Calm c rk in
    let (dst, e2, h) = bread-Got c g ne rm in
    let r1 = brelse_lem (source_held c ne g h) (source_settled c ne g h) in
    let r2 = brelse_lem (target_held c ne g h) (target_settled c ne g h) in
    let w = wrote c ne g h in
    let copied : (dst.1.buf src.0).bytes ≡ visible s k =
      (ap (λ (b : Buf). b.bytes) (h.others src.0 (apart c ne g h)) ∙ g.bytes) in
    (
      src,
      dst,
      after c ne g h,
      between c ne g h,
      final c ne g h,
      e1,
      e2,
      w.1,
      r1.0,
      r2.0,
      record {
        calm = final-Calm c ne g h;
        disk_is = w.3 ∙ rw (copied, g.disk_kept);
        view_is = λ j. r2.2 j ∙ r1.2 j ∙ w.4 j ∙ rw (copied, g.seen j);
      },
    )
