-- ===== src/Strings/Tests.antt =====
-- Runs of src/lib/string.c, and its theorems at concrete bytes.
use pinky_os.Prelude.{ℕ, ◌-◌, ◌%◌, ◌≤◌, ◌<◌, ◌≡◌, refl, List, [], ◌∷◌, arith, length, take}
use pinky_os.Int.{pos}
use pinky_os.Strings.{strncmp, strncpy, safestrcpy}
use pinky_os.Strings.Compare.{text}
use pinky_os.Strings.Copy.{strncmp-strncpy, safestrcpy_lem}
use pinky_os.Strings.Memory.{Memory, memmove, memset, copied, filled, memmove_lem, memset_lem}
use pinky_os.Strings.Numbers.{strtoul}

abbrev cat : List ℕ
cat = b'c' ∷ b'a' ∷ b't' ∷ 0 ∷ b'x' ∷ []

abbrev car : List ℕ
car = b'c' ∷ b'a' ∷ b'r' ∷ []

strncmp_runs : (strncmp cat car 2 ≡ pos 0) × (strncmp cat car 3 ≡ pos 2)
unfolding strncmp
strncmp_runs = (refl, refl)

strncpy_pads : strncpy cat 5 ≡ b'c' ∷ b'a' ∷ b't' ∷ 0 ∷ 0 ∷ []
unfolding strncpy
strncpy_pads = refl

safestrcpy_cuts : safestrcpy cat 3 ≡ b'c' ∷ b'a' ∷ 0 ∷ []
unfolding safestrcpy
safestrcpy_cuts = refl

-- The address is the byte.
abbrev ramp : Memory
ramp a = a

memmove_overlaps : memmove ramp 12 10 4 15 ≡ 13
unfolding memmove
memmove_overlaps = refl

memset_words : (memset ramp 3 0x1aa 9 11 ≡ 0xaa) × (memset ramp 3 0x1aa 9 12 ≡ 12)
unfolding memset
memset_words = (refl, refl)

strtoul_hex : strtoul 0 (b'7' ∷ b'f' ∷ []) 16 ≡ (127, 2)
unfolding strtoul
strtoul_hex = refl

strncmp-strncpy_example :
    (length (strncpy cat 14) ≡ 14)
    × (text (strncpy cat 14) ≡ take 14 (text cat))
    × (strncmp cat (strncpy cat 14) 14 ≡ pos 0)
strncmp-strncpy_example = strncmp-strncpy cat 14

safestrcpy_lem_example :
    (length (safestrcpy cat 3) ≤ 3)
    × (length (text (safestrcpy cat 3)) < length (safestrcpy cat 3))
    × (text (safestrcpy cat 3) ≡ take (3 - 1) (text cat))
safestrcpy_lem_example = safestrcpy_lem cat 3 (omega arith)

memmove_lem_example : memmove ramp 12 10 4 15 ≡ copied ramp 12 10 4 15
memmove_lem_example = memmove_lem ramp 12 10 4 15

memset_lem_example : memset ramp 3 0x1aa 9 11 ≡ filled ramp (0x1aa % 256) 3 9 11
memset_lem_example = memset_lem ramp 3 0x1aa 9 11
