-- ===== src/FileReader/Tests.antt =====
-- A directory of three images, with an insertion sort for `qsort` and decimal numbers for `sscanf`.
use multiprocessor.Common.{
  same_text, pos, true, ◌+◌, Bool, ℕ, ◌&&◌, map, some, none, ◌-◌, Option, ◌*◌, ≤ℤ-cases, neg_part,
  pos_part, ℤ, Bool-cases, ◌≡◌, ok, inr, ◌∷◌, arith, refl, inl, List, ◌>>=◌, leb, Run, [],
  if◌then◌else◌,
}
use mathlib.Core.List.{Perm}
use mathlib.Core.List.Perm
use multiprocessor.Common.{◌≤ℤ◌}
use multiprocessor.Api.{codes}
use multiprocessor.FileReader.{slash, split_filename, generate_filename, get_id}
use multiprocessor.FileReader.Names.{
  last_number, Lacks, ext_of, split-generate, split_filename-Makes, with_directory, Makes,
}
use multiprocessor.FileReader.Sort.{
  TmpFile, Compare, All, Above, IsAscending, Orders, Sorts, SortsBy, IsSmall,
}
use multiprocessor.FileReader.Listing.{
  Entry, Place, get_filelist, get_filelist-accepted, accepted, entry_of,
}
use multiprocessor.FileReader.Convert.{
  converted, Settings, World, convert_paths, convert_files, convert_paths-sorted,
}

abbrev insert_by : Compare → TmpFile → List TmpFile → Run (List TmpFile)
insert_by cmp x [] = ok (x ∷ [])
insert_by cmp x (y ∷ ys) =
    let later = insert_by cmp x ys in
    cmp x y >>= λ d.
    if leb (pos_part d) (neg_part d) then ok (x ∷ y ∷ ys) else (later >>= λ zs. ok (y ∷ zs))

abbrev sort_by : Compare → List TmpFile → Run (List TmpFile)
sort_by cmp [] = ok []
sort_by cmp (x ∷ xs) = sort_by cmp xs >>= insert_by cmp x

module _ (P : TmpFile → Type 0) (key : TmpFile → ℤ) (cmp : Compare)
    (orders : (x y : TmpFile) → P x → P y → Orders cmp key x y) where
  record Inserted (x : TmpFile) (ys : List TmpFile) (r : Run (List TmpFile)) : Type 0 where
    pub into : List TmpFile
    pub returns : r ≡ ok into
    pub all : Perm into (x ∷ ys)
    pub good : All P into
    pub ascending : IsAscending key into
    pub above : (k : ℤ) → k ≤ℤ key x → Above key k ys → Above key k into

  insert_by-Inserted :
      (x : TmpFile) (ys : List TmpFile)
      → P x
      → All P ys
      → IsAscending key ys
      → Inserted x ys (insert_by cmp x ys)
  insert_by-Inserted x [] p good up = record {
    into = x ∷ [];
    returns = refl;
    all = Perm.refl (x ∷ []);
    good = (p, tt);
    ascending = (tt, tt);
    above = λ k low _. low;
  }
  insert_by-Inserted x (y ∷ ys) p good up =
      let (d, compared, sign) = orders x y p good.0 in
      elim (Bool-cases (leb (pos_part d) (neg_part d))) [
        | inl low ↦ record {
          into = x ∷ y ∷ ys;
          returns = rw (compared, low) refl;
          all = Perm.refl (x ∷ y ∷ ys);
          good = (p, good);
          ascending = (sign.0 (ground (arith, low)), up);
          above = λ k below _. below;
        }
        | inr high ↦
            let rest = insert_by-Inserted x ys p good.1 up.1 in
            let over : key y ≤ℤ key x = elim (≤ℤ-cases (key x) (key y)) [
              | inl less ↦ absurd (ground (arith, high, sign.1 less))
              | inr more ↦ more
            ] in
            record {
              into = y ∷ rest.into;
              returns = rw (compared, high, rest.returns) refl;
              all = Perm.trans (Perm.cons y rest.all) (Perm.swap x y ys);
              good = (good.0, rest.good);
              ascending = (rest.above (key y) over up.0, rest.ascending);
              above = λ k below first. first;
            }
      ]

  record Sorted (xs : List TmpFile) (r : Run (List TmpFile)) : Type 0 where
    pub sorts : Sorts key xs r
    pub good : All P sorts.sorted

  sort_by-Sorted : (xs : List TmpFile) → All P xs → Sorted xs (sort_by cmp xs)
  sort_by-Sorted [] good = record {
    sorts = record { sorted = []; returns = refl; all = Perm.refl []; ascending = tt };
    good = tt;
  }
  sort_by-Sorted (x ∷ xs) good =
      let rest = sort_by-Sorted xs good.1 in
      let last = insert_by-Inserted x rest.sorts.sorted good.0 rest.good rest.sorts.ascending in
      record {
        sorts = record {
          sorted = last.into;
          returns = rw rest.sorts.returns last.returns;
          all = Perm.trans last.all (Perm.cons x rest.sorts.all);
          ascending = last.ascending;
        };
        good = last.good;
      }

sort_by-SortsBy : SortsBy sort_by
sort_by-SortsBy P key cmp xs orders good = (sort_by-Sorted P key cmp orders xs good).sorts

abbrev is_digit : ℕ → Bool
is_digit c = leb b'0' c && leb c b'9'

abbrev digits : (n : ℕ) → List ℕ → ℕ
digits n [] = n
digits n (c ∷ cs) = let rest = digits (n * 10 + (c - b'0')) cs in if is_digit c then rest else n

abbrev decimal : List ℕ → Option ℤ
decimal [] = none
decimal (c ∷ cs) = if is_digit c then some (pos (digits 0 (c ∷ cs))) else none

abbrev an_entry : List ℕ → Entry
an_entry name = record { d_name = name; resized = true; copied = true }

abbrev three_entries : List Entry
three_entries =
    an_entry (codes "a_2.raw") ∷ an_entry (codes "a_10.raw") ∷ an_entry (codes "a_1.raw") ∷ []

abbrev three_files : List (List ℕ)
three_files = map (entry_of (codes "in")) (accepted none three_entries)

-- Everything can be read and written.
abbrev a_world : World
a_world = record {
  place_at =
      λ path. if same_text path (codes "in") then Place.directory three_entries else Place.missing;
  scan = decimal;
  qsort = sort_by;
  read_image = λ file. true;
  write_image = λ dst. true;
}

abbrev two_frames : Settings
two_frames = record {
  in_path = some (codes "in/");
  out_path = some (codes "out");
  start_frame = some 1;
  end_frame = some 7;
}

split-generate_example :
    split_filename (codes "in/a_2.raw")
    ≡ record { path = codes "in"; base = codes "a_2"; ext = some (codes "raw") }
unfolding generate_filename
split-generate_example =
    split-generate (codes "in") (codes "a_2") (codes "raw") (omega arith) (omega arith)
      (omega arith)

split_filename-Makes_example :
    Makes (split_filename (codes "a_2.raw")) (with_directory (codes "a_2.raw"))
    × Lacks slash (split_filename (codes "a_2.raw")).base
    × Lacks slash (ext_of (split_filename (codes "a_2.raw")))
split_filename-Makes_example = split_filename-Makes (codes "a_2.raw")

get_filelist-accepted_example :
    get_filelist (codes "in") (some (codes "RAW")) (Place.directory three_entries)
    ≡ ok (some (map (entry_of (codes "in")) (accepted (some (codes "RAW")) three_entries)))
get_filelist-accepted_example =
    get_filelist-accepted (codes "in") (some (codes "RAW")) three_entries
      (refl, refl, (refl, refl, (refl, refl, tt))) (omega arith)

three_files-IsSmall : All (λ file. IsSmall (get_id decimal file)) three_files
unfolding get_id
three_files-IsSmall = omega arith

convert_paths-sorted_example :
    (sorted : List (List ℕ)) × Perm sorted three_files
    × IsAscending (last_number decimal) sorted
    × (convert_paths a_world two_frames (codes "in") (codes "out")
        ≡ ok (converted a_world two_frames (codes "out") sorted))
unfolding get_id
convert_paths-sorted_example =
    convert_paths-sorted a_world two_frames (codes "in") (codes "out") three_entries sort_by-SortsBy
      refl (refl, refl, (refl, refl, (refl, refl, tt))) (omega arith) three_files-IsSmall

-- The names that are written have two dots.
two_dots :
    convert_files (λ file. true) (λ dst. true) (codes "out") (some 1) (some 2) three_files
    ≡ ok (
        some (record {
          read = codes "in/a_10.raw" ∷ [];
          written = codes "out/a_10..r.bmp" ∷ [];
          cnt = 1;
        }))
unfolding convert_files split_filename generate_filename
two_dots = refl
