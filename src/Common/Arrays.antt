-- ===== src/Common/Arrays.antt =====
-- Arrays of bytes as C's string functions see them. A text is the list of its codes.
use Prim.Native.Nat.{ℕ, zero, suc, ◌+◌}
use mathlib.Core.Bool.{Bool, true, false, ◌&&◌, ◌||◌}
use mathlib.Core.List.{List, [], ◌∷◌, ◌++◌}
use mathlib.Core.Option
use mathlib.Core.Option.{Option, none, some}
use multiprocessor.Common.Tests.{◌==◌, leb, if◌then◌else◌}
use multiprocessor.Common.Lists.{length}

-- The text that an array holds: up to its first byte 0, `none` where there is no such byte.
abbrev pub c_string : List ℕ → Option (List ℕ)
c_string [] = none
c_string (c ∷ cs) =
    let rest = c_string cs in if c == 0 then some [] else Option.map (λ text. c ∷ text) rest

abbrev pub drop {ℓ} : {A : Type ℓ} → ℕ → List A → List A
drop zero xs = xs
drop (suc n) [] = []
drop (suc n) (x ∷ xs) = drop n xs

abbrev pub take {ℓ} : {A : Type ℓ} → ℕ → List A → List A
take zero xs = []
take (suc n) [] = []
take (suc n) (x ∷ xs) = x ∷ take n xs

-- `strcasestr` and `strcasecmp`.
abbrev pub lower : ℕ → ℕ
lower c = if leb b'A' c && leb c b'Z' then c + 32 else c

abbrev pub starts_nocase : (prefix text : List ℕ) → Bool
starts_nocase [] text = true
starts_nocase (p ∷ ps) [] = false
starts_nocase (p ∷ ps) (c ∷ cs) = lower p == lower c && starts_nocase ps cs

abbrev pub has_nocase : (needle text : List ℕ) → Bool
has_nocase needle [] = starts_nocase needle []
has_nocase needle (c ∷ cs) = starts_nocase needle (c ∷ cs) || has_nocase needle cs

abbrev pub same_nocase : (s t : List ℕ) → Bool
same_nocase [] [] = true
same_nocase [] (d ∷ ds) = false
same_nocase (c ∷ cs) [] = false
same_nocase (c ∷ cs) (d ∷ ds) = lower c == lower d && same_nocase cs ds

-- Bytes written over an array from an index on.
abbrev pub write_at : ℕ → (new array : List ℕ) → List ℕ
write_at i new array = take i array ++ new ++ drop (i + length new) array

-- `memchr`: the index of a byte in the first `n` ones.
abbrev pub find_byte : (byte n : ℕ) → List ℕ → Option ℕ
find_byte b zero xs = none
find_byte b (suc n) [] = none
find_byte b (suc n) (x ∷ xs) =
    let rest = find_byte b n xs in if x == b then some 0 else Option.map suc rest

-- `strcmp` of two texts, where they are the same.
abbrev pub same_text : (s t : List ℕ) → Bool
same_text [] [] = true
same_text [] (d ∷ ds) = false
same_text (c ∷ cs) [] = false
same_text (c ∷ cs) (d ∷ ds) = c == d && same_text cs ds
