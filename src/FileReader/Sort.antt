-- ===== src/FileReader/Sort.antt =====
-- `sort_filelist` of filereader/src/filelist.c, which puts the files in the order of the numbers in their
-- names. `qsort` is a parameter, and so is `sscanf`.
use mathlib.Core.Path.{subst}
use multiprocessor.Common.{
  pos, sym, arith, refl, ap, pos_part, neg_part, sub_ℕ, ℤ, [], ◌>>=◌, ◌&&◌, if◌then◌else◌, ◌+◌, leb,
  List, ℕ, ◌≡◌, ok, ◌↔◌, ◌≤◌, map, ◌∷◌, fault, Option, Run, ◌<◌,
}
use multiprocessor.RingBuffer.{int_max}
use multiprocessor.FileReader.{get_id}
use mathlib.Core.List.{Perm}
use multiprocessor.Common.{◌≤ℤ◌}
use mathlib.Core.List.Perm

pub record TmpFile : Type 0 where
  pub filename : List ℕ
  pub id : ℤ

-- A difference that is no `int` is undefined.
unfoldable pub files_cmp : TmpFile → TmpFile → Run ℤ
files_cmp x y =
    let d = sub_ℕ (pos_part x.id + neg_part y.id) (pos_part y.id + neg_part x.id) in
    if leb (pos_part d) int_max && leb (neg_part d) (int_max + 1) then ok d else fault

abbrev pub with_id : (scan : List ℕ → Option ℤ) → List ℕ → TmpFile
with_id scan file = record { filename = file; id = get_id scan file }

abbrev pub Compare : Type 0
Compare = TmpFile → TmpFile → Run ℤ

unfoldable pub sort_filelist :
    (scan : List ℕ → Option ℤ)
    → (qsort : Compare → List TmpFile → Run (List TmpFile)) → (files : List (List ℕ))
    → Run (List (List ℕ))
sort_filelist scan qsort files =
    qsort files_cmp (map (with_id scan) files) >>= λ sorted. ok (map (λ t. t.filename) sorted)

module _ {ℓ κ} {A : Type ℓ} where
  abbrev pub All : (A → Type κ) → List A → Type κ
  All P [] = Unit
  All P (x ∷ xs) = P x × All P xs

module _ {ℓ} {A : Type ℓ} (key : A → ℤ) where
  -- The first key is not below `k`.
  abbrev pub Above : ℤ → List A → Type 0
  Above k [] = Unit
  Above k (x ∷ xs) = k ≤ℤ key x

  abbrev pub IsAscending : List A → Type 0
  IsAscending [] = Unit
  IsAscending (x ∷ xs) = Above (key x) xs × IsAscending xs

-- The comparison of two elements says how their keys are.
abbrev pub Orders : Compare → (key : TmpFile → ℤ) → TmpFile → TmpFile → Type 0
Orders cmp key x y = (d : ℤ) × (cmp x y ≡ ok d) × ((d ≤ℤ pos 0) ↔ (key x ≤ℤ key y))

-- A run that returns all of `xs` in ascending order.
pub record Sorts (key : TmpFile → ℤ) (xs : List TmpFile) (r : Run (List TmpFile)) : Type 0 where
  pub sorted : List TmpFile
  pub returns : r ≡ ok sorted
  pub all : Perm sorted xs
  pub ascending : IsAscending key sorted

-- What `qsort` promises: where the comparison orders the elements by a key, it sorts them by it.
abbrev pub SortsBy : (qsort : Compare → List TmpFile → Run (List TmpFile)) → Type 1
SortsBy qsort =
    (P : TmpFile → Type 0) (key : TmpFile → ℤ) (cmp : Compare) (xs : List TmpFile)
    → ((x y : TmpFile) → P x → P y → Orders cmp key x y)
    → All P xs
    → Sorts key xs (qsort cmp xs)

-- A number from -1 to one below the greatest `int`.
abbrev pub IsSmall : ℤ → Type 0
IsSmall id = (neg_part id ≤ 1) × (pos_part id < int_max)

sub_ℕ_sign :
    (a b : ℤ) → (sub_ℕ (pos_part a + neg_part b) (pos_part b + neg_part a) ≤ℤ pos 0) ↔ (a ≤ℤ b)
sub_ℕ_sign a b = (λ h. ground arith, λ h. ground arith)

fits :
    (a b : ℤ)
    → IsSmall a
    → IsSmall b
    → (let d = sub_ℕ (pos_part a + neg_part b) (pos_part b + neg_part a) in
        if leb (pos_part d) int_max && leb (neg_part d) (int_max + 1) then ok d else fault)
      ≡ ok (sub_ℕ (pos_part a + neg_part b) (pos_part b + neg_part a))
fits a b small small' = ground arith

map-with_id :
    (scan : List ℕ → Option ℤ) (files : List (List ℕ))
    → map (λ t. t.filename) (map (with_id scan) files) ≡ files
map-with_id scan [] = refl
map-with_id scan (file ∷ files) = ap (λ t. file ∷ t) (map-with_id scan files)

All-with_id :
    (scan : List ℕ → Option ℤ) (files : List (List ℕ))
    → All (λ file. IsSmall (get_id scan file)) files
    → All (λ t. IsSmall t.id × (t.id ≡ get_id scan t.filename)) (map (with_id scan) files)
All-with_id scan [] small = tt
All-with_id scan (file ∷ files) small = ((small.0, refl), All-with_id scan files small.1)

IsAscending-map :
    (key : List ℕ → ℤ) (ts : List TmpFile)
    → IsAscending (λ t. key t.filename) ts
    → IsAscending key (map (λ t. t.filename) ts)
IsAscending-map key [] up = tt
IsAscending-map key (t ∷ []) up = (tt, tt)
IsAscending-map key (t ∷ u ∷ us) up = (up.0, IsAscending-map key (u ∷ us) up.1)

files_cmp-Orders :
    (key : TmpFile → ℤ) (x y : TmpFile)
    → IsSmall x.id × (x.id ≡ key x)
    → IsSmall y.id × (y.id ≡ key y)
    → Orders files_cmp key x y
unfolding files_cmp
files_cmp-Orders key x y (small, named) (small', named') =
    let d = sub_ℕ (pos_part x.id + neg_part y.id) (pos_part y.id + neg_part x.id) in
    (d, fits x.id y.id small small', rw (sym named, sym named') (sub_ℕ_sign x.id y.id))

-- `qsort` sorting what the comparison orders, and the numbers in the names being small, `sort_filelist`
-- returns the same files in ascending order of these numbers.
pub sort_filelist-sorts :
    (scan : List ℕ → Option ℤ) (qsort : Compare → List TmpFile → Run (List TmpFile))
    (files : List (List ℕ))
    → SortsBy qsort
    → All (λ file. IsSmall (get_id scan file)) files
    → (sorted : List (List ℕ)) × (sort_filelist scan qsort files ≡ ok sorted)
      × Perm sorted files
      × IsAscending (get_id scan) sorted
unfolding sort_filelist
sort_filelist-sorts scan qsort files sorts small =
    let key = λ (t : TmpFile). get_id scan t.filename in
    let s =
      sorts (λ t. IsSmall t.id × (t.id ≡ key t)) key files_cmp (map (with_id scan) files)
        (files_cmp-Orders key) (All-with_id scan files small) in
    (
      map (λ t. t.filename) s.sorted,
      ap (λ r. r >>= λ sorted. ok (map (λ t. t.filename) sorted)) s.returns,
      subst (λ names. Perm (map (λ t. t.filename) s.sorted) names) (map-with_id scan files)
          (Perm.map (λ t. t.filename) s.all),
      IsAscending-map (get_id scan) s.sorted s.ascending,
    )
