-- ===== src/FileReader/Names.antt =====
-- `split_filename` and `generate_filename` of filereader/src/filelist.c.
use mathlib.Core.Path.{subst}
use multiprocessor.Common.{
  ℤ, negsuc, Option, Option-cases, Bool-cases, if◌then◌else◌, ◌==◌, ℕ_discrete, List, none, ℕ, ◌≢◌,
  ◌≡◌, sym, ◌⊎◌, refl, inr, inl, ap, ◌++◌, ==_iff, ◌∷◌, [], some, arith,
}
use multiprocessor.FileReader.{
  underscore, get_id, slash, dot, split_last, Parts, with_path, split_filename, generate_filename,
}

-- The byte `b` is not in the text.
abbrev pub Lacks : (b : ℕ) → List ℕ → Type 0
Lacks b [] = Unit
Lacks b (x ∷ xs) = (x ≢ b) × Lacks b xs

-- The two answers of a search for the last place.
pub split_last-cases :
    (b : ℕ) (xs : List ℕ)
    → ((split_last b xs ≡ none) × Lacks b xs)
      ⊎ ((before : List ℕ) × (behind : List ℕ) × (split_last b xs ≡ some (before, behind))
          × (before ++ b ∷ behind ≡ xs)
          × Lacks b behind)
split_last-cases b [] = inl (refl, tt)
split_last-cases b (x ∷ xs) = elim (split_last-cases b xs) [
  | inr (before, behind, found, parts, last) ↦
      inr (x ∷ before, behind, rw found refl, ap (λ t. x ∷ t) parts, last)
  | inl (missing, lacks) ↦ elim (ℕ_discrete x b) [
    | yes same ↦
        inr ([], xs, rw (missing, (==_iff x b).1 same) refl, ap (λ c. c ∷ xs) (sym same), lacks)
    | no other ↦ inl (rw missing (ground (arith, other)), (other, lacks))
  ]
]

pub split_last-none : (b : ℕ) (xs : List ℕ) → Lacks b xs → split_last b xs ≡ none
split_last-none b [] lacks = refl
split_last-none b (x ∷ xs) lacks = rw (split_last-none b xs lacks.1) (ground (arith, lacks.0))

pub split_last-append :
    (b : ℕ) (before behind : List ℕ)
    → Lacks b behind
    → split_last b (before ++ b ∷ behind) ≡ some (before, behind)
split_last-append b [] behind lacks = rw (split_last-none b behind lacks, (==_iff b b).1 refl) refl
split_last-append b (x ∷ before) behind lacks = rw (split_last-append b before behind lacks) refl

Lacks-append : (b : ℕ) (xs ys : List ℕ) → Lacks b xs → Lacks b ys → Lacks b (xs ++ ys)
Lacks-append b [] ys clean clean' = clean'
Lacks-append b (x ∷ xs) ys clean clean' = (clean.0, Lacks-append b xs ys clean.1 clean')

-- Where the base has no slash and the extension neither a slash nor a dot, `split_filename` finds the
-- three parts that a name was made of.
pub split-generate :
    (path base ext : List ℕ)
    → Lacks slash base
    → Lacks slash ext
    → Lacks dot ext
    → split_filename (generate_filename path base ext)
      ≡ record { path = path; base = base; ext = some ext }
unfolding split_filename generate_filename
split-generate path base ext plain plain_ext last =
    let name = Lacks-append slash base (dot ∷ ext) plain (omega arith, plain_ext) in
    rw
      (
        split_filename,
        split_last-append slash path (base ++ dot ∷ ext) name,
        with_path,
        split_last-append dot base ext last,
      )
      refl

-- What a name is written as with a directory before it: "./" where it has no slash.
abbrev pub with_directory : (filename : List ℕ) → List ℕ
with_directory filename = elim (split_last slash filename) [
  | none ↦ dot ∷ slash ∷ filename
  | some (path, name) ↦ filename
]

-- The parts make the whole: joined by `generate_filename` where there is an extension, which has no
-- dot; by a slash where there is none, and then the base has no dot.
abbrev pub Makes : Parts → (whole : List ℕ) → Type 0
Makes p whole = elim p.ext [
  | some ext ↦ (generate_filename p.path p.base ext ≡ whole) × Lacks dot ext
  | none ↦ (p.path ++ slash ∷ p.base ≡ whole) × Lacks dot p.base
]

with_path-Makes : (path name : List ℕ) → Makes (with_path path name) (path ++ slash ∷ name)
unfolding generate_filename
with_path-Makes path name = elim (split_last-cases dot name) [
  | inl (missing, lacks) ↦ rw (with_path, missing) (refl, lacks)
  | inr (base, ext, found, parts, last) ↦
      rw (with_path, found) (ap (λ t. path ++ slash ∷ t) parts, last)
]

abbrev pub ext_of : Parts → List ℕ
ext_of p = elim p.ext [ none ↦ [] | some ext ↦ ext ]

Lacks-parts : (b : ℕ) (xs ys : List ℕ) (y : ℕ) → Lacks b (xs ++ y ∷ ys) → Lacks b xs × Lacks b ys
Lacks-parts b [] ys y lacks = (tt, lacks.1)
Lacks-parts b (x ∷ xs) ys y lacks =
    let (front, back) = Lacks-parts b xs ys y lacks.1 in ((lacks.0, front), back)

with_path-Lacks :
    (path name : List ℕ)
    → Lacks slash name
    → Lacks slash (with_path path name).base × Lacks slash (ext_of (with_path path name))
with_path-Lacks path name plain = elim (split_last-cases dot name) [
  | inl (missing, lacks) ↦ rw (with_path, missing) (plain, tt)
  | inr (base, ext, found, parts, last) ↦
      rw (with_path, found) (Lacks-parts slash base ext dot (subst (Lacks slash) (sym parts) plain))
]

-- Every name is parted at its last slash, so that neither the base nor the extension has one, and behind
-- it at the last dot: with an extension, which has no dot, `generate_filename` puts the parts together again, with "./" before a name that has no slash;
-- without one, the path, a slash and the base are that, and the base has no dot.
pub split_filename-Makes :
    (filename : List ℕ)
    → Makes (split_filename filename) (with_directory filename)
      × Lacks slash (split_filename filename).base
      × Lacks slash (ext_of (split_filename filename))
unfolding split_filename
split_filename-Makes filename = elim (split_last-cases slash filename) [
  | inl (missing, plain) ↦
      let whole : with_directory filename ≡ dot ∷ slash ∷ filename =
        rw (with_directory, missing) refl in
      rw (whole, split_filename, missing)
        (let (l, r) = with_path-Lacks (dot ∷ []) filename plain in
          (with_path-Makes (dot ∷ []) filename, l, r))
  | inr (path, name, found, parts, plain) ↦
      let whole : with_directory filename ≡ path ++ slash ∷ name =
        rw (with_directory, found) (sym parts) in
      rw (whole, split_filename, found)
        (let (l, r) = with_path-Lacks path name plain in (with_path-Makes path name, l, r))
]

-- What `sscanf` reads, or -1.
abbrev pub number_in : Option ℤ → ℤ
number_in none = negsuc 0
number_in (some id) = id

-- The number behind the last underscore of a text, given the number behind the last one before it.
abbrev pub number_behind : (scan : List ℕ → Option ℤ) → ℤ → List ℕ → ℤ
number_behind scan id [] = id
number_behind scan id (x ∷ xs) =
    number_behind scan (if x == underscore then number_in (scan xs) else id) xs

abbrev pub last_number : (scan : List ℕ → Option ℤ) → List ℕ → ℤ
last_number scan file = number_behind scan (negsuc 0) file

abbrev number_of : (scan : List ℕ → Option ℤ) → ℤ → Option (List ℕ × List ℕ) → ℤ
number_of scan id none = id
number_of scan id (some (before, num)) = number_in (scan num)

number_behind_lem :
    (scan : List ℕ → Option ℤ) (id : ℤ) (xs : List ℕ)
    → number_of scan id (split_last underscore xs) ≡ number_behind scan id xs
number_behind_lem scan id [] = refl
number_behind_lem scan id (x ∷ xs) =
    let later = number_behind_lem scan (if x == underscore then number_in (scan xs) else id) xs in
    elim (Option-cases (split_last underscore xs)) [
      | inr ((before, num), found) ↦ rw found (rw found at later)
      | inl missing ↦ elim (Bool-cases (x == underscore)) [
        | inl here ↦ rw (missing, here) (rw (missing, here) at later)
        | inr other ↦ rw (missing, other) (rw (missing, other) at later)
      ]
    ]

pub get_id-last_number :
    (scan : List ℕ → Option ℤ) (file : List ℕ) → get_id scan file ≡ last_number scan file
unfolding get_id
get_id-last_number scan file =
    let later = number_behind_lem scan (negsuc 0) file in
    elim (Option-cases (split_last underscore file)) [
      | inl missing ↦ rw (get_id, missing) (rw missing at later)
      | inr ((before, num), found) ↦ elim (Option-cases (scan num)) [
        | inl unread ↦ rw (get_id, found, unread) (rw (found, unread) at later)
        | inr (id, read) ↦ rw (get_id, found, read) (rw (found, read) at later)
      ]
    ]
