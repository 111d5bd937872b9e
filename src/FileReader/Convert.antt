-- ===== src/FileReader/Convert.antt =====
-- filereader/src/filereader.c: the program that reads the images of a directory and writes them to
-- another. `read_image` and `write_image` are parameters that say where they succeed.
use multiprocessor.Common.{
  sym, ◌∙◌, Bool-cases, Option-cases, ◌⊎◌, ap, map, inl, inr, negsuc, ℤ, drop, pos, take, refl,
  arith, ◌<◌, ltb, ◌≡◌, ◌++◌, [], ◌≤◌, ok, some, Run, get_elem?, zero, fault, none, ℕ, ◌+◌, Option,
  ◌-◌, List, if◌then◌else◌, ◌∷◌, Bool, ◌==◌, suc, ◌>>=◌, length,
}
use mathlib.Core.List.{Perm, append-nil, append_assoc}
use native.Mathlib.Nat.{add-zero}
use mathlib.Core.Option
use multiprocessor.RingBuffer.{int_max}
use multiprocessor.Api.{codes}
use multiprocessor.FileReader.{slash, split_filename, generate_filename}
use mathlib.Core.Path.{subst, fun_ext}
use multiprocessor.FileReader.Names.{last_number, get_id-last_number}
use multiprocessor.FileReader.Sort.{
  Compare, TmpFile, sort_filelist, sort_filelist-sorts, SortsBy, IsAscending, All, IsSmall,
}
use multiprocessor.FileReader.Listing.{
  Place, Entry, get_filelist, entry_of, Granted, get_filelist-accepted, accepted,
}

-- What `getopt_long` gives, the numbers by `strtol`.
pub data Flag : Type 0 where
  input : List ℕ → Flag
  output : List ℕ → Flag
  start : ℤ → Flag
  finish : ℤ → Flag
  help : Flag
  unknown : Flag

-- `none` for -1 and for `NULL`.
pub record Settings : Type 0 where
  pub in_path : Option (List ℕ)
  pub out_path : Option (List ℕ)
  pub start_frame : Option ℕ
  pub end_frame : Option ℕ

-- The loop over the options; `none` where the program ends.
abbrev pub parse_flags : List Flag → Settings → Option Settings
parse_flags [] s = some s
parse_flags (input path ∷ flags) s = parse_flags flags (record s { in_path = some path })
parse_flags (output path ∷ flags) s = parse_flags flags (record s { out_path = some path })
parse_flags (start (pos n) ∷ flags) s = parse_flags flags (record s { start_frame = some n })
parse_flags (start (negsuc n) ∷ flags) s = none
parse_flags (finish (pos n) ∷ flags) s = parse_flags flags (record s { end_frame = some n })
parse_flags (finish (negsuc n) ∷ flags) s = none
parse_flags (help ∷ flags) s = none
parse_flags (unknown ∷ flags) s = parse_flags flags s

-- A slash at the end is cut off; of an empty text the byte before it is read.
abbrev pub cut_slash : List ℕ → Run (List ℕ)
cut_slash [] = fault
cut_slash (c ∷ []) = ok (if c == slash then [] else c ∷ [])
cut_slash (c ∷ d ∷ cs) = cut_slash (d ∷ cs) >>= λ rest. ok (c ∷ rest)

-- The first frame and the one behind the last; `none` where the program ends.
unfoldable pub select_frames : (start_frame end_frame : Option ℕ) → (nfiles : ℕ) → Option (ℕ × ℕ)
select_frames start_frame end_frame nfiles =
    let first : ℕ = elim start_frame [ none ↦ 0 | some s ↦ s ] in
    let last : ℕ = elim end_frame [ none ↦ nfiles | some e ↦ if ltb nfiles e then nfiles else e ] in
    if ltb last first then none else some (first, last)

-- What the loop has done: the names that were given to `read_image` and to `write_image`, and how many
-- writes succeeded.
pub record Done : Type 0 where
  pub read : List (List ℕ)
  pub written : List (List ℕ)
  pub cnt : ℕ

done :
    {r r' w w' : List (List ℕ)} {c c' : ℕ}
    → r ≡ r'
    → w ≡ w'
    → c ≡ c'
    → ◌≡◌ {A = Done}
        (record { read = r; written = w; cnt = c })
        (record { read = r'; written = w'; cnt = c' })
done e f g = cc

get_elem?-drop {ℓ} :
    {A : Type ℓ} (i : ℕ) (xs : List A)
    → i < length xs
    → (x : A) × (get_elem? xs i ≡ some x) × (drop i xs ≡ x ∷ drop (suc i) xs)
get_elem?-drop i [] inside = absurd (omega (arith, inside))
get_elem?-drop zero (x ∷ xs) inside = (x, refl, refl)
get_elem?-drop (suc i) (x ∷ xs) inside = get_elem?-drop i xs (omega (arith, inside))

module _ (read_image write_image : List ℕ → Bool) (out_path : List ℕ) where
  abbrev pub destination : (file : List ℕ) → List ℕ
  destination file = generate_filename out_path (split_filename file).base (codes ".r.bmp")

  abbrev pub convert : (file : List ℕ) → Done → Done
  convert file d =
      if read_image file
      then record {
        read = d.read ++ file ∷ [];
        written = d.written ++ destination file ∷ [];
        cnt = if write_image (destination file) then d.cnt + 1 else d.cnt;
      }
      else record d { read = d.read ++ file ∷ [] }

  -- The loop over the frames from `i` on.
  unfoldable pub convert_frames : (rounds i : ℕ) → List (List ℕ) → Done → Run Done
  convert_frames zero i files d = ok d
  convert_frames (suc n) i files d = elim (get_elem? files i) [
    | none ↦ fault
    | some file ↦ convert_frames n (suc i) files (convert file d)
  ]

  unfoldable pub convert_files :
      (start_frame end_frame : Option ℕ) → List (List ℕ) → Run (Option Done)
  unfolding convert_frames select_frames
  convert_files start_frame end_frame files =
      elim (select_frames start_frame end_frame (length files)) [
        | none ↦ ok none
        | some (first, last) ↦
            convert_frames (last - first) first files (record { read = []; written = []; cnt = 0 })
            >>= λ d. ok (some d)
      ]

  -- What should come of some files.
  abbrev pub convert_all : List (List ℕ) → Done → Done
  convert_all [] d = d
  convert_all (file ∷ files) d = convert_all files (convert file d)

  -- The names that are written: for each file that can be read the path, a slash, the base, and "..r.bmp".
  abbrev pub names_written : List (List ℕ) → List (List ℕ)
  names_written [] = []
  names_written (file ∷ files) =
      if read_image file
      then (out_path ++ slash ∷ ((split_filename file).base ++ codes "..r.bmp"))
        ∷ names_written files
      else names_written files

  abbrev pub successes : List (List ℕ) → ℕ
  successes [] = 0
  successes (name ∷ names) = (if write_image name then 1 else 0) + successes names

  -- All files are read in order, and what can be read is written.
  convert_all_lem :
      (files : List (List ℕ)) (d : Done)
      → convert_all files d ≡ record {
        read = d.read ++ files;
        written = d.written ++ names_written files;
        cnt = d.cnt + successes (names_written files);
      }
  unfolding generate_filename
  convert_all_lem [] d = rw (append-nil d.read, append-nil d.written, add-zero d.cnt) refl
  convert_all_lem (file ∷ files) d =
      let name = out_path ++ slash ∷ ((split_filename file).base ++ codes "..r.bmp") in
      let names = append_assoc d.written (name ∷ []) (names_written files) in
      let s = successes (names_written files) in
      let one : d.cnt + 1 + s ≡ d.cnt + (1 + s) = omega arith in
      elim (Bool-cases (read_image file)) [
        | inl readable ↦ elim (Bool-cases (write_image name)) [
          | inl fine ↦
              rw (readable, fine)
                (convert_all_lem files (record {
                  read = d.read ++ file ∷ [];
                  written = d.written ++ name ∷ [];
                  cnt = d.cnt + 1;
                })
                  ∙ done (append_assoc d.read (file ∷ []) files) names one)
          | inr bad ↦
              rw (readable, bad)
                (convert_all_lem files (record {
                  read = d.read ++ file ∷ [];
                  written = d.written ++ name ∷ [];
                  cnt = d.cnt;
                })
                  ∙ done (append_assoc d.read (file ∷ []) files) names (omega arith))
        ]
        | inr unreadable ↦ rw unreadable (
            convert_all_lem files (record d { read = d.read ++ file ∷ [] })
            ∙ done (append_assoc d.read (file ∷ []) files) refl refl)
      ]

  convert_frames_lem :
      (rounds i : ℕ) (files : List (List ℕ)) (d : Done)
      → i + rounds ≤ length files
      → convert_frames rounds i files d ≡ ok (convert_all (take rounds (drop i files)) d)
  unfolding convert_frames
  convert_frames_lem zero i files d enough = refl
  convert_frames_lem (suc n) i files d enough =
      let (file, here, parts) = get_elem?-drop i files (omega (arith, enough)) in
      rw (convert_frames, here, parts)
        (convert_frames_lem n (suc i) files (convert file d) (omega (arith, enough)))

  select_frames-bounds :
      (start_frame end_frame : Option ℕ) (n first last : ℕ)
      → select_frames start_frame end_frame n ≡ some (first, last)
      → (first ≤ last) × (last ≤ n)
  unfolding select_frames
  select_frames-bounds none none n first last e = ground arith
  select_frames-bounds (some s) none n first last e = ground arith
  select_frames-bounds none (some f) n first last e = ground arith
  select_frames-bounds (some s) (some f) n first last e = ground arith

  -- No file behind the end of the list is read, whatever frames are asked for: the frames from the first
  -- to the last one that `select_frames` finds are converted, each once and in order.
  pub convert_files-all :
      (start_frame end_frame : Option ℕ) (files : List (List ℕ))
      → convert_files start_frame end_frame files
        ≡ ok (
            Option.map
              (λ frames.
                convert_all
                  (take (frames.1 - frames.0) (drop frames.0 files))
                  (record { read = []; written = []; cnt = 0 }))
              (select_frames start_frame end_frame (length files)))
  unfolding convert_files
  convert_files-all start_frame end_frame files =
      elim (Option-cases (select_frames start_frame end_frame (length files))) [
        | inl nothing ↦ rw (convert_files, nothing) refl
        | inr ((first, last), found) ↦
            let bounds =
              select_frames-bounds start_frame end_frame (length files) first last found in
            let ran =
              convert_frames_lem (last - first) first files
                (record { read = []; written = []; cnt = 0 }) (omega (arith, bounds.0, bounds.1)) in
            rw (convert_files, found) (ap (λ r. r >>= λ d. ok (some d)) ran)
      ]

abbrev unset : Settings
unset = record { in_path = none; out_path = none; start_frame = none; end_frame = none }

-- The file system, the library's functions, and the images.
pub record World : Type 0 where
  pub place_at : List ℕ → Place
  pub scan : List ℕ → Option ℤ
  pub qsort : Compare → List TmpFile → Run (List TmpFile)
  pub read_image : List ℕ → Bool
  pub write_image : (dst : List ℕ) → Bool

-- The program behind its options; the list is sorted before it is compared with `NULL`.
unfoldable pub convert_paths : World → Settings → (in_path out_path : List ℕ) → Run (Option Done)
unfolding convert_files get_filelist sort_filelist
convert_paths w s in_path out_path = get_filelist in_path none (w.place_at in_path) >>= λ list.
    elim list [
      | none ↦ fault
      | some files ↦
          sort_filelist w.scan w.qsort files
          >>= convert_files w.read_image w.write_image out_path s.start_frame s.end_frame
    ]

-- `main`: `none` where it ends before the loop.
unfoldable pub main : World → List Flag → Run (Option Done)
unfolding convert_paths
main w flags = elim (parse_flags flags unset) [
  | none ↦ ok none
  | some s ↦ elim s.in_path [
    | none ↦ ok none
    | some given ↦ cut_slash given >>= λ in_path. elim s.out_path [
      | none ↦ ok none
      | some given' ↦ cut_slash given' >>= convert_paths w s in_path
    ]
  ]
]

-- What is converted of a sorted list: nothing where the frames that are asked for end before they begin,
-- else each of them is read, in order, what can be read is written under the name of its base in the
-- other directory, and the writes that succeed are counted.
abbrev pub converted : World → Settings → (out_path : List ℕ) → List (List ℕ) → Option Done
converted w s out_path sorted = elim (select_frames s.start_frame s.end_frame (length sorted)) [
  | none ↦ none
  | some (first, last) ↦
      let frames = take (last - first) (drop first sorted) in
      let names = names_written w.read_image w.write_image out_path frames in
      some (record {
        read = frames;
        written = names;
        cnt = successes w.read_image w.write_image out_path names;
      })
]

convert_files-converted :
    (w : World) (s : Settings) (out_path : List ℕ) (files : List (List ℕ))
    → convert_files w.read_image w.write_image out_path s.start_frame s.end_frame files
      ≡ ok (converted w s out_path files)
convert_files-converted w s out_path files =
    let all =
      convert_files-all w.read_image w.write_image out_path s.start_frame s.end_frame files in
    all ∙ elim (Option-cases (select_frames s.start_frame s.end_frame (length files))) [
      | inl nothing ↦ rw (converted, nothing) refl
      | inr ((first, last), found) ↦
          rw (converted, found)
            (ap (λ d. ok (some d))
              (convert_all_lem w.read_image w.write_image out_path
                  (take (last - first) (drop first files))
                  (record { read = []; written = []; cnt = 0 })
                ∙ done refl refl (omega arith)))
    ]

-- Where the input is a directory with memory for all of its entries, no more than an `int` counts, and the
-- numbers behind the last underscores of the names, -1 where there is none, are small: the files of the
-- directory are put in ascending order of these numbers, and those of them that the options ask for are
-- read, in order; for each that can be read a file with its base's name and "..r.bmp" in the other
-- directory is written, and the writes that succeed are counted. Where the options ask for frames that end
-- before they begin, nothing is read or written.
pub convert_paths-sorted :
    (w : World) (s : Settings) (in_path out_path : List ℕ) (entries : List Entry)
    → SortsBy w.qsort
    → w.place_at in_path ≡ Place.directory entries
    → Granted entries
    → length entries ≤ int_max
    → All
        (λ file. IsSmall (last_number w.scan file))
        (map (entry_of in_path) (accepted none entries))
    → (sorted : List (List ℕ)) × Perm sorted (map (entry_of in_path) (accepted none entries))
      × IsAscending (last_number w.scan) sorted
      × (convert_paths w s in_path out_path ≡ ok (converted w s out_path sorted))
unfolding convert_paths
convert_paths-sorted w s in_path out_path entries sorts found granted few small =
    let files = map (entry_of in_path) (accepted none entries) in
    let same = fun_ext (get_id-last_number w.scan) in
    let small' =
      subst (λ (key : List ℕ → ℤ). All (λ file. IsSmall (key file)) files) (sym same) small in
    let (sorted, ran, all, up) = sort_filelist-sorts w.scan w.qsort files sorts small' in
    let listed = get_filelist-accepted in_path none entries granted few in
    (
      sorted,
      all,
      subst (λ (key : List ℕ → ℤ). IsAscending key sorted) same up,
      rw (found, listed, ran) (convert_files-converted w s out_path sorted),
    )

-- A path that is not there, or a directory that cannot be opened, is a read through `NULL`.
pub convert_paths-missing :
    (w : World) (s : Settings) (in_path out_path : List ℕ)
    → (w.place_at in_path ≡ Place.missing) ⊎ (w.place_at in_path ≡ Place.unreadable)
    → convert_paths w s in_path out_path ≡ fault
unfolding convert_paths get_filelist
convert_paths-missing w s in_path out_path (inl gone) = rw gone refl
convert_paths-missing w s in_path out_path (inr shut) = rw shut refl
