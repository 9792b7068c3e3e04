-- ===== src/Syscall.antt =====
-- The checks of system call arguments in src/syscall.c and the file descriptors of src/sysfile.c. A
-- process of `sz` bytes has its memory at the addresses below `sz`; memory is a function from
-- addresses to bytes.
pub mod Arguments
mod Tests
use pinky_os.Prelude.{
  ℕ, zero, suc, ◌+◌, ◌-◌, ◌*◌, ◌/◌, ◌%◌, ◌^◌, ◌≤◌, ◌<◌, min, ◌≡◌, refl, sym, ap, ◌∙◌, ◌≢◌, ◌↔◌, ◌⊎◌,
  inl, inr, Bool, true, false, not, ◌&&◌, ◌||◌, Option, none, some, List, [], ◌∷◌, ◌++◌, append-nil,
  append_assoc, arith, ltb, leb, ◌==◌, if◌then◌else◌, eq_of_test, ne_of_test, test_of_ne, eq_self,
  Bool-cases, Option-cases, length, get_or, set, take, replicate, length-append, length-set,
  length-replicate, get_or-set_self, get_or-set_ne, get_or-set,
}
use Prim.Native.String.{String}
use pinky_os.Outcome.{Outcome, ok, panic, ◌>>=◌}
use mathlib.Core.Option

-- A `long` of n bytes at an address, little-endian.
unfoldable pub long_at : (ℕ → ℕ) → (addr n : ℕ) → ℕ
long_at mem addr zero = 0
long_at mem addr (suc n) = mem addr + 2 ^ 8 * long_at mem (addr + 1) n

unfoldable pub fetchint : (mem : ℕ → ℕ) → (sz addr : ℕ) → Option ℕ
unfolding long_at
fetchint mem sz addr =
    if leb sz addr || ltb sz ((addr + 8) % 2 ^ 64) then none else some (long_at mem addr 8)

-- The loop of `fetchstr`: how far the first zero is in the n bytes from an address on.
unfoldable pub find_nul : (mem : ℕ → ℕ) → (addr n : ℕ) → Option ℕ
find_nul mem addr zero = none
find_nul mem addr (suc n) =
    let rest = find_nul mem (addr + 1) n in if mem addr == 0 then some 0 else Option.map suc rest

-- `fetchstr`: the length of the text. As an `int` it is exact below 2^31, and so for processes of at most
-- UADDR_SZ = 2^28 bytes.
unfoldable pub fetchstr : (mem : ℕ → ℕ) → (sz addr : ℕ) → Option ℕ
fetchstr mem sz addr = if leb sz addr then none else find_nul mem addr (sz - addr)

-- `argint`; `args` are the registers r1 to r4 of the trap frame.
unfoldable pub argint : (args : List ℕ) → (n : ℕ) → Outcome ℕ
argint args n = if ltb 3 n then panic "too many system call parameters\n" else ok (get_or args n 0)

-- An `int` in 32 bits, as an unsigned number of 64 bits.
abbrev pub extend : ℕ → ℕ
extend i = if ltb i (2 ^ 31) then i else i + (2 ^ 64 - 2 ^ 32)

unfoldable pub argptr : (args : List ℕ) → (sz n size : ℕ) → Outcome (Option ℕ)
unfolding argint
argptr args sz n size = argint args n >>= λ i.
    ok (if leb sz i || ltb sz ((i + extend size) % 2 ^ 64) then none else some i)

-- `argstr`: the address and the length of the text.
unfoldable pub argstr : (args : List ℕ) → (mem : ℕ → ℕ) → (sz n : ℕ) → Outcome (Option (ℕ × ℕ))
unfolding argint fetchstr
argstr args mem sz n =
    argint args n >>= λ addr. ok (Option.map (λ l. (addr, l)) (fetchstr mem sz addr))

-- NOFILE
abbrev pub nofile : ℕ
nofile = 16

-- `argfd` on `proc->ofile`, of NOFILE entries; a negative `long` has its top bit set.
unfoldable pub argfd :
    (args : List ℕ) → (ofile : List (Option ℕ)) → (n : ℕ) → Outcome (Option (ℕ × ℕ))
unfolding argint
argfd args ofile n = argint args n >>= λ fd. ok (
    if leb (2 ^ 63) fd || leb nofile fd
    then none
    else Option.map (λ f. (fd, f)) (get_or ofile fd none))

-- The loop of `fdalloc` over the entries from a descriptor on: the descriptor and the entries after.
unfoldable pub fdalloc : List (Option ℕ) → (file : ℕ) → Option (ℕ × List (Option ℕ))
fdalloc [] file = none
fdalloc (none ∷ fs) file = some (0, some file ∷ fs)
fdalloc (some g ∷ fs) file = Option.map (λ (fd, gs). (suc fd, some g ∷ gs)) (fdalloc fs file)
