-- ===== src/FileReader.antt =====
-- filereader/src/filelist.c: the parts of file names and the list of the files of a directory. A text is
-- the list of its codes.
use mathlib.Core.Option
pub mod Names
pub mod Sort
pub mod Listing
pub mod Convert
mod Tests
use multiprocessor.Common.{
  negsuc, same_nocase, ℤ, false, ℕ, map, if◌then◌else◌, ◌==◌, some, ◌∷◌, none, [], ◌++◌, Option,
  Bool, List,
}

abbrev pub slash : ℕ
slash = b'/'

abbrev pub dot : ℕ
dot = b'.'

abbrev pub underscore : ℕ
underscore = b'_'

-- What stands before and behind the last place of a byte, which `strrchr` finds.
abbrev pub split_last : (byte : ℕ) → List ℕ → Option (List ℕ × List ℕ)
split_last b [] = none
split_last b (x ∷ xs) = elim (split_last b xs) [
  | some (before, behind) ↦ some (x ∷ before, behind)
  | none ↦ if x == b then some ([], xs) else none
]

-- `get_extension`: with its dot; `none` for `NULL`.
unfoldable pub get_extension : (filename : List ℕ) → Option (List ℕ)
get_extension filename = Option.map (λ parts. dot ∷ parts.1) (split_last dot filename)

-- `is_filter_ok`.
unfoldable pub is_filter_ok : (filename filter : List ℕ) → Bool
is_filter_ok filename filter = elim (split_last dot filename) [
  | none ↦ false
  | some (before, ext) ↦ same_nocase ext filter
]

-- `get_id`. `scan` is `sscanf` with "%d", where it reads a number.
unfoldable pub get_id : (scan : List ℕ → Option ℤ) → (filename : List ℕ) → ℤ
get_id scan filename = elim (split_last underscore filename) [
  | none ↦ negsuc 0
  | some (before, num) ↦ elim (scan num) [ none ↦ negsuc 0 | some id ↦ id ]
]

-- `get_dirname`: what it leaves in `pdir`.
unfoldable pub get_dirname : (filename : List ℕ) → List ℕ
get_dirname filename = elim (split_last slash filename) [ none ↦ dot ∷ [] | some (dir, name) ↦ dir ]

-- What `split_filename` leaves in its last three parameters; `none` for `NULL`.
pub record Parts : Type 0 where
  pub path : List ℕ
  pub base : List ℕ
  pub ext : Option (List ℕ)

-- The extension is looked for behind the last slash alone.
abbrev pub with_path : (path name : List ℕ) → Parts
with_path path name = elim (split_last dot name) [
  | none ↦ record { path = path; base = name; ext = none }
  | some (base, ext) ↦ record { path = path; base = base; ext = some ext }
]

unfoldable pub split_filename : (filename : List ℕ) → Parts
split_filename filename = elim (split_last slash filename) [
  | none ↦ with_path (dot ∷ []) filename
  | some (path, name) ↦ with_path path name
]

unfoldable pub generate_filename : (path base ext : List ℕ) → List ℕ
generate_filename path base ext = path ++ slash ∷ (base ++ dot ∷ ext)
