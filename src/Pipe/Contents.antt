-- ===== src/Pipe/Contents.antt =====
-- The bytes that a pipe of src/pipe.c holds, oldest first, and the invariant under which it does.
use pinky_os.Prelude.{
  ℕ, zero, suc, ◌+◌, ◌-◌, ◌%◌, ◌^◌, ◌≤◌, ◌<◌, ◌≡◌, refl, ap, List, [], ◌∷◌, ◌++◌, false, arith,
  length, get_or, set, length-set, get_or-set_self, get_or-set_ne,
}
use mathlib.Core.Path.{ap₂}
use pinky_os.Pipe.{Pipe, pipe_size, uint, alloc, is_full, is_empty, put, front, advance}

-- `nwrite - nread` as a `uint`
abbrev pub used : Pipe → ℕ
used p = uint (p.nwrite + 2 ^ 32 - p.nread)

pub record IsValid (p : Pipe) : Type 0 where
  pub room : length p.buffer ≡ pipe_size
  pub nread_uint : p.nread < 2 ^ 32
  pub nwrite_uint : p.nwrite < 2 ^ 32
  pub fits : used p ≤ pipe_size

-- The n bytes from the counter value r on, going round the buffer.
abbrev pub window : List ℕ → ℕ → ℕ → List ℕ
window buffer r zero = []
window buffer r (suc n) = get_or buffer (r % pipe_size) 0 ∷ window buffer (uint (r + 1)) n

abbrev pub contents : Pipe → List ℕ
contents p = window p.buffer p.nread (used p)

length-window : (buffer : List ℕ) (r n : ℕ) → length (window buffer r n) ≡ n
length-window buffer r zero = refl
length-window buffer r (suc n) = ap suc (length-window buffer (uint (r + 1)) n)

pub length-contents : (p : Pipe) → length (contents p) ≡ used p
length-contents p = length-window p.buffer p.nread (used p)

-- A write just past a window extends it by that byte.
window-set :
    (buffer : List ℕ) (byte n r w : ℕ)
    → length buffer ≡ pipe_size
    → r < 2 ^ 32
    → n < pipe_size
    → w ≡ uint (r + n)
    → window (set buffer (w % pipe_size) byte) r (suc n) ≡ window buffer r n ++ (byte ∷ [])
window-set buffer byte zero r w room small h e =
    let here : w % pipe_size ≡ r % pipe_size = omega arith in
    ap (λ b. b ∷ []) (rw here (get_or-set_self buffer (r % pipe_size) byte 0 (omega arith)))
window-set buffer byte (suc n) r w room small h e =
    ap₂ ◌∷◌ (get_or-set_ne buffer (w % pipe_size) (r % pipe_size) byte 0 (omega arith))
      (window-set buffer byte n (uint (r + 1)) w room (omega arith) (omega arith) (omega arith))

pub alloc-IsValid : (bytes : List ℕ) → length bytes ≡ pipe_size → IsValid (alloc bytes)
unfolding alloc
alloc-IsValid bytes h = omega arith

pub put-IsValid : {p : Pipe} (byte : ℕ) → IsValid p → is_full p ≡ false → IsValid (put p byte)
unfolding put
put-IsValid {p} byte v h = ground (arith, length-set p.buffer (p.nwrite % pipe_size) byte)

pub contents-put :
    {p : Pipe} (byte : ℕ)
    → IsValid p
    → is_full p ≡ false
    → contents (put p byte) ≡ contents p ++ (byte ∷ [])
unfolding put
contents-put {p} byte v h =
    let grown : used (put p byte) ≡ suc (used p) = ground arith in
    rw grown (
      window-set p.buffer byte (used p) p.nread p.nwrite v.room v.nread_uint (ground arith)
        (omega (arith, v.nread_uint, v.nwrite_uint)))

pub advance-IsValid : {p : Pipe} → IsValid p → is_empty p ≡ false → IsValid (advance p)
advance-IsValid {p} v h = ground arith

pub contents-advance :
    {p : Pipe} → IsValid p → is_empty p ≡ false → contents p ≡ front p ∷ contents (advance p)
contents-advance {p} v h =
    let shrunk : used p ≡ suc (used (advance p)) = ground arith in
    ap (window p.buffer p.nread) shrunk
