-- ===== src/FileReader/Listing.antt =====
-- `get_filelist` of filereader/src/filelist.c: the files of a directory.
use mathlib.Core.Bool.{not}
use multiprocessor.Common.{
  Bool, Bool-cases, List, Option, Run, [], ap, arith, false, fault, if◌then◌else◌, inl, inr, leb,
  length, length-append, ltb, map, none, ok, refl, some, sym, take, true, ℕ, ◌*◌, ◌++◌, ◌+◌, ◌-◌,
  ◌/◌, ◌<◌, ◌>>=◌, ◌^◌, ◌∙◌, ◌∷◌, ◌≡◌, ◌≤◌,
}
use multiprocessor.RingBuffer.{int_max}
use multiprocessor.FileReader.{slash, is_filter_ok}
use mathlib.Core.List.{append_assoc, append-nil}

-- `MAX_FILENAME_LENGTH`.
abbrev pub max_filename_length : ℕ
max_filename_length = 254

-- `SIZE_MAX / sizeof * filenames`.
abbrev pub max_pointers : ℕ
max_pointers = (2 ^ 64 - 1) / 8

-- What `readdir` gives, and whether there is memory for more pointers and for the name, if it is asked
-- for.
pub record Entry : Type 0 where
  pub d_name : List ℕ
  pub resized : Bool
  pub copied : Bool

-- What is at a path, as `stat` and `opendir` say.
pub data Place : Type 0 where
  missing : Place
  single : Place
  unreadable : Place
  directory : List Entry → Place

abbrev pub is_left_out : (filter : Option (List ℕ)) → (name : List ℕ) → Bool
is_left_out none name = false
is_left_out (some filter) name = if is_filter_ok name filter then false else true

-- The number of pointers there is room for when one more is stored; `none` where the loop is left.
abbrev pub room : Entry → (ln cnt : ℕ) → Option ℕ
room e ln cnt =
    if leb ln cnt
    then (if ltb max_pointers (2 * ln + 1)
        then none
        else if e.resized
        then some (2 * ln + 1)
        else none)
    else some ln

-- The loop, with the names so far; a store behind the last pointer is a fault.
unfoldable pub read_names :
    (filter : Option (List ℕ))
    → List Entry
    → (ln : ℕ) → (names : List (List ℕ)) → Run (List (List ℕ))
read_names filter [] ln names = ok names
read_names filter (e ∷ entries) ln names =
    let skipped = read_names filter entries ln names in
    if is_left_out filter e.d_name then skipped else elim (room e ln (length names)) [
      | none ↦ ok names
      | some ln' ↦
          let stored = read_names filter entries ln' (names ++ e.d_name ∷ []) in
          if not e.copied then ok names else if ltb (length names) ln' then stored else fault
    ]

-- `snprintf` into an element of `files`.
abbrev pub entry_of : (path name : List ℕ) → List ℕ
entry_of path name = take (max_filename_length - 1) (path ++ slash ∷ name)

-- `create_filelist`, which has an `int` for the number of files, and what `get_filelist` puts there.
abbrev pub create_filelist :
    (path : List ℕ) → (names : List (List ℕ)) → Run (Option (List (List ℕ)))
create_filelist path names =
    if leb (length names) int_max then ok (some (map (entry_of path) names)) else fault

-- `none` for `NULL`.
unfoldable pub get_filelist :
    (path : List ℕ) → (filter : Option (List ℕ)) → Place → Run (Option (List (List ℕ)))
unfolding read_names
get_filelist path filter missing = ok none
get_filelist path filter single = ok (some (take (max_filename_length - 1) path ∷ []))
get_filelist path filter unreadable = ok none
get_filelist path filter (directory entries) =
    read_names filter entries 0 [] >>= create_filelist path

-- The names that the filter accepts.
abbrev pub accepted : (filter : Option (List ℕ)) → List Entry → List (List ℕ)
accepted filter [] = []
accepted filter (e ∷ entries) =
    let rest = accepted filter entries in
    if is_left_out filter e.d_name then rest else e.d_name ∷ rest

-- There is memory for every entry.
abbrev pub Granted : List Entry → Type 0
Granted [] = Unit
Granted (e ∷ entries) = (e.resized ≡ true) × (e.copied ≡ true) × Granted entries

-- How much room there is for the names so far.
record IsRoomy (ln : ℕ) (names : List (List ℕ)) : Type 0 where
  pub enough : length names ≤ ln
  pub modest : ln ≤ 2 * length names

room-Granted :
    (e : Entry) (ln : ℕ) (names : List (List ℕ))
    → IsRoomy ln names
    → e.resized ≡ true
    → length names < int_max
    → (ln' : ℕ) × (room e ln (length names) ≡ some ln')
      × (ltb (length names) ln' ≡ true)
      × IsRoomy ln' (names ++ e.d_name ∷ [])
room-Granted e ln names roomy granted few =
    let one = length-append names (e.d_name ∷ []) in
    elim (Bool-cases (leb ln (length names))) [
      | inl full ↦ (
        2 * ln + 1,
        rw (room, full) (ground (arith, roomy.enough, roomy.modest, granted, few)),
        ground (arith, roomy.enough),
        record { enough = omega (arith, one, roomy.enough); modest = ground (arith, one, full) },
      )
      | inr free ↦ (
        ln,
        rw (room, free) refl,
        ground (arith, free),
        record { enough = ground (arith, one, free); modest = omega (arith, one, roomy.modest) },
      )
    ]

read_names-stored :
    (filter : Option (List ℕ)) (e : Entry) (entries : List Entry) (ln ln' : ℕ)
    (names : List (List ℕ))
    → is_left_out filter e.d_name ≡ false
    → room e ln (length names) ≡ some ln'
    → e.copied ≡ true
    → ltb (length names) ln' ≡ true
    → read_names filter (e ∷ entries) ln names
      ≡ read_names filter entries ln' (names ++ e.d_name ∷ [])
unfolding read_names
read_names-stored filter e entries ln ln' names stays enlarged copied inside =
    rw (read_names, stays, enlarged, copied, inside) refl

read_names-Granted :
    (filter : Option (List ℕ)) (entries : List Entry) (ln : ℕ) (names : List (List ℕ))
    → IsRoomy ln names
    → Granted entries
    → length names + length entries ≤ int_max
    → read_names filter entries ln names ≡ ok (names ++ accepted filter entries)
unfolding read_names
read_names-Granted filter [] ln names roomy granted few = ap ok (sym (append-nil names))
read_names-Granted filter (e ∷ entries) ln names roomy (resized, copied, granted) few =
    elim (Bool-cases (is_left_out filter e.d_name)) [
      | inl out ↦
          rw (read_names, out)
            (read_names-Granted filter entries ln names roomy granted (omega (arith, few)))
      | inr stays ↦
          let (ln', enlarged, inside, roomy') =
            room-Granted e ln names roomy resized (omega (arith, few)) in
          let rest =
            read_names-Granted filter entries ln' (names ++ e.d_name ∷ []) roomy' granted
              (omega (arith, few, length-append names (e.d_name ∷ []))) in
          read_names-stored filter e entries ln ln' names stays enlarged copied inside
          ∙ rest
          ∙ rw stays (ap ok (append_assoc names (e.d_name ∷ []) (accepted filter entries)))
    ]

length-accepted :
    (filter : Option (List ℕ)) (entries : List Entry)
    → length (accepted filter entries) ≤ length entries
length-accepted filter [] = omega arith
length-accepted filter (e ∷ entries) = elim (Bool-cases (is_left_out filter e.d_name)) [
  | inl out ↦ rw out (omega (arith, length-accepted filter entries))
  | inr stays ↦ rw stays (omega (arith, length-accepted filter entries))
]

-- With memory for every entry and no more entries than an `int` counts, the list of a directory has the
-- path, a slash and the name for each entry that the filter accepts, in the order of `readdir`, each
-- cut behind 253 bytes; no store goes behind the pointers that there is room for.
pub get_filelist-accepted :
    (path : List ℕ) (filter : Option (List ℕ)) (entries : List Entry)
    → Granted entries
    → length entries ≤ int_max
    → get_filelist path filter (directory entries)
      ≡ ok (some (map (entry_of path) (accepted filter entries)))
unfolding get_filelist
get_filelist-accepted path filter entries granted few =
    let read =
      read_names-Granted filter entries 0 [] (record { enough = omega arith; modest = omega arith })
        granted (omega (arith, few)) in
    rw read (ground (arith, length-accepted filter entries, few))
