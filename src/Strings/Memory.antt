-- ===== src/Strings/Memory.antt =====
-- `memmove` and `memset` of src/lib/string.c over one memory, a byte at each address. Addresses do
-- not wrap: an object of C lies within the address space.
use native.Mathlib.Nat.{add-zero}
use pinky_os.Prelude.{
  ℕ, zero, suc, ◌+◌, ◌-◌, ◌*◌, ◌/◌, ◌%◌, ◌^◌, ◌≤◌, ◌<◌, ◌≡◌, refl, ap, ◌∙◌, ◌⊎◌, inl, inr, ◌&&◌,
  arith, ltb, leb, ◌==◌, if◌then◌else◌, Bool-cases,
}

abbrev pub Memory : Type 0
Memory = ℕ → ℕ

abbrev pub store : Memory → ℕ → ℕ → Memory
store m p v a = if a == p then v else m a

-- `*d++ = *s++`, n times
pub forward : Memory → (d s n : ℕ) → Memory
forward m d s zero = m
forward m d s (suc n) = forward (store m d (m s)) (d + 1) (s + 1) n

-- `*--d = *--s`, n times, from `d + n` and `s + n` down
pub backward : Memory → (d s n : ℕ) → Memory
backward m d s zero = m
backward m d s (suc n) = backward (store m (d + n) (m (s + n))) d s n

unfoldable pub memmove : Memory → (d s n : ℕ) → Memory
unfolding forward backward
memmove m d s n = if ltb s d && ltb d (s + n) then backward m d s n else forward m d s n

-- What a copy of n bytes from s to d should leave.
abbrev pub copied : Memory → (d s n : ℕ) → Memory
copied m d s n a = if leb d a && ltb a (d + n) then m (a - d + s) else m a

module _ (m : Memory) (d s a : ℕ) where
  shifted : d < a → m (a - (d + 1) + (s + 1)) ≡ m (a - d + s)
  shifted h = ap m (omega arith)

  at_offset : (n : ℕ) → a ≡ d + n → m (a - d + s) ≡ m (s + n)
  at_offset n e = ap m (omega arith)

forward-copied :
    (n : ℕ) (m : Memory) (d s a : ℕ) → (d ≤ s) ⊎ (s + n ≤ d) → forward m d s n a ≡ copied m d s n a
unfolding forward
forward-copied zero m d s a h = ground arith
forward-copied (suc n) m d s a h =
    forward-copied n (store m d (m s)) (d + 1) (s + 1) a (ground arith)
    ∙ ground (arith, shifted m d s a, at_offset m d s a 0, ap m (add-zero s))

backward-copied : (n : ℕ) (m : Memory) (d s a : ℕ) → s < d → backward m d s n a ≡ copied m d s n a
unfolding backward
backward-copied zero m d s a h = ground arith
backward-copied (suc n) m d s a h =
    backward-copied n (store m (d + n) (m (s + n))) d s a h ∙ ground (arith, at_offset m d s a n)

-- However source and destination overlap, `memmove` leaves in the destination the bytes that the
-- source held before the call, and changes nothing else.
pub memmove_lem : (m : Memory) (d s n a : ℕ) → memmove m d s n a ≡ copied m d s n a
unfolding memmove
memmove_lem m d s n a = ground (arith, forward-copied n m d s a, backward-copied n m d s a)

-- The bytes that `memset` sets one by one until `p` is a multiple of 4: the pointer, the count and
-- the memory it goes on with.
pub align_loop : Memory → (c p n : ℕ) → Memory × ℕ × ℕ
align_loop m c p zero = (m, p, 0)
align_loop m c p (suc n) =
    let rest = align_loop (store m p c) c (p + 1) n in if p % 4 == 0 then (m, p, suc n) else rest

-- `*p4 = val`: the four bytes of a little-endian word.
abbrev pub store_word : Memory → (p val : ℕ) → Memory
store_word m p val =
    store
      (store (store (store m p (val % 256)) (p + 1) (val / 2 ^ 8 % 256)) (p + 2)
        (val / 2 ^ 16 % 256))
      (p + 3) (val / 2 ^ 24 % 256)

pub word_loop : Memory → (val p n : ℕ) → Memory × ℕ × ℕ
word_loop m val p (suc (suc (suc (suc n)))) = word_loop (store_word m p val) val (p + 4) n
word_loop m val p n = (m, p, n)

pub byte_loop : Memory → (c p n : ℕ) → Memory
byte_loop m c p zero = m
byte_loop m c p (suc n) = byte_loop (store m p c) c (p + 1) n

-- `n` is an `int`: for one below 0 no loop is entered.
unfoldable pub memset : Memory → (dst v n : ℕ) → Memory
unfolding align_loop word_loop byte_loop
memset m dst v n =
    let c = v % 256 in
    let (m1, p1, n1) = align_loop m c dst n in
    let (m2, p2, n2) = word_loop m1 (c * 2 ^ 24 + c * 2 ^ 16 + c * 2 ^ 8 + c) p1 n1 in
    byte_loop m2 c p2 n2

abbrev pub filled : Memory → (c p n : ℕ) → Memory
filled m c p n a = if leb p a && ltb a (p + n) then c else m a

byte_loop-filled : (n : ℕ) (m : Memory) (c p a : ℕ) → byte_loop m c p n a ≡ filled m c p n a
unfolding byte_loop
byte_loop-filled zero m c p a = ground arith
byte_loop-filled (suc n) m c p a = ground (arith, byte_loop-filled n (store m p c) c (p + 1) a)

-- The loop filled the bytes up to its pointer, and n bytes are left from there.
record Filling (m : Memory) (c p n : ℕ) (out : Memory × ℕ × ℕ) : Type 0 where
  left : out.1 + out.2 ≡ p + n
  onward : p ≤ out.1
  bytes : (a : ℕ) → out.0 a ≡ filled m c p (out.1 - p) a

start-Filling : (m : Memory) (c p n : ℕ) → Filling m c p n (m, p, n)
start-Filling m c p n = record { left = refl; onward = omega arith; bytes = λ a. ground arith }

step-Filling :
    (m m' : Memory) (c p k n t : ℕ) (out : Memory × ℕ × ℕ)
    → t ≡ n + k
    → ((a : ℕ) → m' a ≡ filled m c p k a)
    → Filling m' c (p + k) n out
    → Filling m c p t out
step-Filling m m' c p k n t out e h f = record {
  left = omega (arith, f.left);
  onward = omega (arith, f.onward);
  bytes = λ a. ground (arith, f.bytes a, h a, f.onward);
}

align_loop-Filling : (n : ℕ) (m : Memory) (c p : ℕ) → Filling m c p n (align_loop m c p n)
unfolding align_loop
align_loop-Filling zero m c p = start-Filling m c p 0
align_loop-Filling (suc n) m c p = elim (Bool-cases (p % 4 == 0)) [
  | inl aligned ↦ rw aligned (start-Filling m c p (suc n))
  | inr odd ↦ rw odd (
      step-Filling m (store m p c) c p 1 n (suc n) _ (omega arith) (λ a. ground arith)
        (align_loop-Filling n (store m p c) c (p + 1)))
]

abbrev word_of : ℕ → ℕ
word_of c = c * 2 ^ 24 + c * 2 ^ 16 + c * 2 ^ 8 + c

store_word-filled :
    (m : Memory) (c p a : ℕ) → c < 256 → store_word m p (word_of c) a ≡ filled m c p 4 a
store_word-filled m c p a h =
    let b0 : word_of c % 256 ≡ c = omega arith in
    let b1 : word_of c / 2 ^ 8 % 256 ≡ c = omega arith in
    let b2 : word_of c / 2 ^ 16 % 256 ≡ c = omega arith in
    let b3 : word_of c / 2 ^ 24 % 256 ≡ c = omega arith in rw (b0, b1, b2, b3) (ground arith)

word_loop-Filling :
    (n : ℕ) (m : Memory) (c p : ℕ) → c < 256 → Filling m c p n (word_loop m (word_of c) p n)
unfolding word_loop
word_loop-Filling zero m c p h = start-Filling m c p 0
word_loop-Filling (suc zero) m c p h = start-Filling m c p 1
word_loop-Filling (suc (suc zero)) m c p h = start-Filling m c p 2
word_loop-Filling (suc (suc (suc zero))) m c p h = start-Filling m c p 3
word_loop-Filling (suc (suc (suc (suc n)))) m c p h =
    step-Filling m (store_word m p (word_of c)) c p 4 n (suc (suc (suc (suc n)))) _ (omega arith)
      (λ a. store_word-filled m c p a h)
      (word_loop-Filling n (store_word m p (word_of c)) c (p + 4) h)

-- `memset` puts the low byte of v at each of the n addresses from `dst` on, whatever the alignment
-- of `dst`, and changes nothing else.
pub memset_lem : (m : Memory) (dst v n a : ℕ) → memset m dst v n a ≡ filled m (v % 256) dst n a
unfolding memset
memset_lem m dst v n a =
    let c = v % 256 in
    let first = align_loop m c dst n in
    let second = word_loop first.0 (word_of c) first.1 first.2 in
    let f = align_loop-Filling n m c dst in
    let g = word_loop-Filling first.2 first.0 c first.1 (omega arith) in
    ground (
      arith,
      f.left,
      f.onward,
      f.bytes a,
      g.left,
      g.onward,
      g.bytes a,
      byte_loop-filled second.2 second.0 c second.1 a,
    )
