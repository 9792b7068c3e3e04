-- ===== src/Buddy/Sizes.antt =====
-- `get_order` of src/buddy.c against the sizes of blocks.
use pinky_os.Prelude.{
  passes, passes-lt, ℕ, ◌-◌, ◌^◌, ◌≤◌, ◌<◌, ◌≡◌, refl, Bool, true, false, ◌&&◌, ◌||◌, arith, ltb,
  leb, ◌==◌,
}
use pinky_os.Outcome.{Outcome, ok, panic, waits}
use pinky_os.Buddy.{get_order}

-- Whether an order is the least of those in range whose blocks hold v bytes.
abbrev pub is_least : (v : ℕ) → Outcome ℕ → Bool
is_least v (ok k) = leb 6 k && leb k 12 && leb v (2 ^ k) && (k == 6 || ltb (2 ^ (k - 1)) v)
is_least v (panic m) = false
is_least v waits = false

get_order_table : passes (λ v. v == 0 || is_least v (get_order v)) 4097 ≡ true
unfolding passes get_order
get_order_table = refl

-- For 1 to 4096 bytes `get_order` returns the least order from MIN_ORD to MAX_ORD whose blocks are
-- large enough.
pub get_order_lem : (v : ℕ) → 0 < v → v ≤ 4096 → is_least v (get_order v) ≡ true
get_order_lem v some_bytes few =
    let t =
      passes-lt (λ v. v == 0 || is_least v (get_order v)) 4097 v (omega arith) get_order_table in
    ground (arith, t)
