-- ===== src/Pipeline/Configuration.antt =====
-- `model_read_configuration_` of pipeline/src/pipeline_server.c: the modules from the descriptions
-- of config/include/config/module_description.h, in whatever order the file has them.
use multiprocessor.Pipeline.{process, finalization, source, Kind}
use multiprocessor.Common.{
  Bool-cases, inl, inr, false, ◌&&◌, ◌==◌, [], ℕ, fault, length, Run, ◌∷◌, sym, get_or, set,
  if◌then◌else◌, refl, none, some, replicate, get_or-set_self, ◌≢◌, length-replicate, get_or-set_ne,
  ok, get_elem?, List, suc, length-set, ltb, ◌∙◌, arith, zero, ◌≡◌, Option, ◌<◌,
}

-- `type` of `struct module_description`.
pub data ModuleType : Type 0 where
  mt_undefined : ModuleType
  mt_first : ModuleType
  mt_middle : ModuleType
  mt_last : ModuleType

-- `struct module_description` without its command; `next` is `none` for -1.
pub record Description : Type 0 where
  pub id : ℕ
  pub module_type : ModuleType
  -- how many texts `argv` has before its `NULL`
  pub argc : ℕ
  pub next : Option ℕ

-- An element of the array: its `thread_method`, `none` where it is left as `malloc` returned it, and
-- the index that `next` points to.
pub record ReadSlot : Type 0 where
  pub thread_method : Option Kind
  pub next : Option ℕ

abbrev pub method_of : ModuleType → Option Kind
method_of mt_undefined = none
method_of mt_first = some source
method_of mt_last = some finalization
method_of mt_middle = some process

abbrev pub slot_of : Description → ReadSlot
slot_of d = record { thread_method = method_of d.module_type; next = d.next }

-- The loop: each description goes to the element of its number. An element outside of the array is a
-- fault, and so is an `argv` that has a text: the new `argv` has room for one pointer, its `NULL`.
pub place : List Description → List (Option ReadSlot) → Run (List (Option ReadSlot))
place [] slots = ok slots
place (d ∷ ds) slots =
    let later = place ds (set slots d.id (some (slot_of d))) in
    if ltb d.id (length slots) && d.argc == 0 then later else fault

-- `malloc` leaves every element unset.
pub read_configuration : List Description → Run (List (Option ReadSlot))
unfolding place
read_configuration ds = place ds (replicate (length ds) none)

-- A number that no description has, and numbers that are all different and below a bound, of descriptions
-- without arguments.
abbrev Fresh : ℕ → List Description → Type 0
Fresh i [] = Unit
Fresh i (d ∷ ds) = (i ≢ d.id) × Fresh i ds

abbrev pub Numbered : ℕ → List Description → Type 0
Numbered n [] = Unit
Numbered n (d ∷ ds) = (d.id < n) × Fresh d.id ds × Numbered n ds × (d.argc ≡ 0)

place-Fresh :
    (ds : List Description) (slots : List (Option ReadSlot)) (i : ℕ)
    → Numbered (length slots) ds
    → (out : List (Option ReadSlot)) × (place ds slots ≡ ok out)
      × (length out ≡ length slots)
      × (Fresh i ds → get_or out i none ≡ get_or slots i none)
unfolding place
place-Fresh [] slots i all = (slots, refl, refl, λ f. refl)
place-Fresh (d ∷ ds) slots i all =
    let size = length-set slots d.id (some (slot_of d)) in
    let (out, run, long, kept) =
      place-Fresh ds (set slots d.id (some (slot_of d))) i (rw size all.2) in
    (
      out,
      ground (arith, all.0, all.3, run),
      long ∙ size,
      λ f. kept f.1 ∙ get_or-set_ne slots d.id i (some (slot_of d)) none (λ e. f.0 (sym e)),
    )

place_lem :
    (ds : List Description) (slots : List (Option ReadSlot)) (k : ℕ) (d : Description)
    → Numbered (length slots) ds
    → get_elem? ds k ≡ some d
    → (out : List (Option ReadSlot)) × (place ds slots ≡ ok out)
      × (length out ≡ length slots)
      × (get_or out d.id none ≡ some (slot_of d))
unfolding place
place_lem [] slots k d all e = absurd cc
place_lem (c ∷ ds) slots zero d all e =
    let same : c ≡ d = cc in
    let size = length-set slots c.id (some (slot_of c)) in
    let (out, run, long, kept) =
      place-Fresh ds (set slots c.id (some (slot_of c))) c.id (rw size all.2) in
    (
      out,
      ground (arith, all.0, all.3, run),
      long ∙ size,
      rw (← same) (kept all.1 ∙ get_or-set_self slots c.id (some (slot_of c)) none all.0),
    )
place_lem (c ∷ ds) slots (suc k) d all e =
    let size = length-set slots c.id (some (slot_of c)) in
    let (out, run, long, found) =
      place_lem ds (set slots c.id (some (slot_of c))) k d (rw size all.2) e in
    (out, ground (arith, all.0, all.3, run), long ∙ size, found)

-- Where the numbers of the descriptions are all different and below how many there are, and none has a
-- text in its `argv`, the modules are read without a fault, one for each description, and the module at the number of each
-- description has its thread and its successor, in whatever order the file has them.
pub read_configuration_lem :
    (ds : List Description) (k : ℕ) (d : Description)
    → Numbered (length ds) ds
    → get_elem? ds k ≡ some d
    → (slots : List (Option ReadSlot)) × (read_configuration ds ≡ ok slots)
      × (length slots ≡ length ds)
      × (get_or slots d.id none ≡ some (slot_of d))
unfolding read_configuration
read_configuration_lem ds k d all e =
    let unset : List (Option ReadSlot) = replicate (length ds) none in
    let size : length unset ≡ length ds = length-replicate {A = Option ReadSlot} (length ds) none in
    let (slots, run, long, found) = place_lem ds unset k d (rw size all) e in
    (slots, run, long ∙ size, found)

-- The first description of a file that has a text in its `argv`, as every module with a program has, is a
-- write behind the end of the new `argv`.
pub read_configuration-fault :
    (d : Description) (ds : List Description) → 0 < d.argc → read_configuration (d ∷ ds) ≡ fault
unfolding read_configuration place
read_configuration-fault d ds texts =
    let some_text : (d.argc == 0) ≡ false = ground (arith, texts) in
    elim (Bool-cases (ltb d.id (length (replicate {A = Option ReadSlot} (length (d ∷ ds)) none)))) [
      | inl inside ↦ rw (read_configuration, place, inside, some_text) refl
      | inr outside ↦ rw (read_configuration, place, outside) refl
    ]
