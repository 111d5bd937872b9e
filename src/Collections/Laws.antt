-- ===== src/Collections/Laws.antt =====
-- What the functions on the counted lists do to the sequence of their elements.
use multiprocessor.LinkedList.Steps.{back_lem, remove_lem}
use mathlib.Core.List.{append_assoc, append-nil}
use multiprocessor.LinkedList.Rings.{Segment-frame}
use multiprocessor.Common.{
  ◌<◌, arith, inl, ◌-◌, inr, true, length-append, ok, false, zero, sym, map, ap, ◌∙◌, refl, ◌==◌,
  Bool-cases, ◌+◌, suc, [], ◌++◌, List, ◌≡◌, length, ◌∷◌, ℕ, count,
}
use multiprocessor.Collections.{Collection, add, delete, destroy, cleared, put}
use multiprocessor.LinkedList.{Heap, update}
use multiprocessor.LinkedList.Sequence.{Holds, is_new}
use multiprocessor.LinkedList.Refinement.{first_elem-Holds, is_empty-Holds}

-- The list holds a sequence and the counter is its length.
pub record IsValid {ℓ} {A : Type ℓ} (c : Collection A) (xs : List ℕ) : Type ℓ where
  pub holds : Holds c.heap c.list xs
  pub counted : c.cnt ≡ length xs

update_known : (f : ℕ → ℕ) (a v x : ℕ) → f a ≡ v → update f a v x ≡ f x
update_known f a v x e = elim (Bool-cases (x == a)) [
  | inl same ↦ let xa : x ≡ a = ground arith in rw same (sym e ∙ ap f (sym xa))
  | inr other ↦ rw other refl
]

-- Clearing what has no links changes nothing that the list holds.
cleared-Holds :
    (h : Heap) (list a : ℕ) (xs : List ℕ)
    → Holds h list xs
    → count a (list ∷ xs) ≡ 0
    → Holds (cleared a h) list xs
cleared-Holds h list a xs holds absent =
    let free = holds.clean a absent in
    record {
      ring = record {
        links =
            Segment-frame h (cleared a h) list xs list (λ x m. update_known h.next a 0 x free.0)
              (λ x m. update_known h.prev a 0 x free.1) holds.ring.links;
        apart = holds.ring.apart;
      };
      clean = λ x gone. (
        update_known h.next a 0 x free.0 ∙ (holds.clean x gone).0,
        update_known h.prev a 0 x free.1 ∙ (holds.clean x gone).1,
      );
    }

module _ {ℓ} {A : Type ℓ} where
  -- A new struct goes to the end of the list, is counted, and has its value; the other structs keep theirs.
  pub add-append :
      (address : ℕ) (value : A) (c : Collection A) (xs : List ℕ)
      → IsValid c xs
      → is_new c.list address xs ≡ true
      → (h : Heap) × (add address value c
          ≡ ok (record c { heap = h; cnt = c.cnt + 1; entry = put c.entry address value }))
        × IsValid
            (record c { heap = h; cnt = c.cnt + 1; entry = put c.entry address value })
            (xs ++ address ∷ [])
  unfolding add
  add-append a value c xs valid new =
      let absent : count a (c.list ∷ xs) ≡ 0 = ground (arith, new) in
      let nonnull : (a == 0) ≡ false = ground (arith, new) in
      let cleared_holds = cleared-Holds c.heap c.list a xs valid.holds absent in
      let k = back_lem (cleared a c.heap) c.list a xs cleared_holds new in
      (
        k.heap,
        rw (nonnull, k.ran) refl,
        record {
          holds = k.holds;
          counted = omega (arith, valid.counted, length-append xs (a ∷ []));
        },
      )

  pub add-IsValid :
      (address : ℕ) (value : A) (c : Collection A) (xs : List ℕ)
      → IsValid c xs
      → is_new c.list address xs ≡ true
      → (c' : Collection A) × (add address value c ≡ ok c')
        × IsValid c' (xs ++ address ∷ [])
        × (c'.entry address ≡ value)
        × (c'.closed ≡ c.closed)
  add-IsValid a value c xs valid new =
      let (h, ran, done) = add-append a value c xs valid new in
      let self : (a == a) ≡ true = ground arith in
      (
        record c { heap = h; cnt = c.cnt + 1; entry = put c.entry a value },
        ran,
        done,
        rw self refl,
        refl,
      )

  -- A struct of the list is taken out, counted off, and its descriptor closed.
  pub delete-IsValid :
      (fd : A → ℕ) (c : Collection A) (l : List ℕ) (address : ℕ) (r : List ℕ)
      → IsValid c (l ++ address ∷ r)
      → (c' : Collection A) × (delete fd address c ≡ ok c')
        × IsValid c' (l ++ r)
        × (c'.closed ≡ c.closed ++ fd (c.entry address) ∷ [])
        × (c'.entry ≡ c.entry)
        × (c'.list ≡ c.list)
  unfolding delete
  delete-IsValid fd c l a r valid =
      let k = remove_lem c.heap c.list a l r valid.holds in
      (
        record c { heap = k.heap; cnt = c.cnt - 1; closed = c.closed ++ fd (c.entry a) ∷ [] },
        rw k.ran refl,
        record {
          holds = k.holds;
          counted = omega (arith, valid.counted, length-append l (a ∷ r), length-append l r);
        },
        refl,
        refl,
        refl,
      )

  -- With more rounds than there are structs, the loop empties the list: every descriptor is closed
  -- once, in the order of the list.
  pub destroy-IsValid :
      (fd : A → ℕ) (fuel : ℕ) (c : Collection A) (xs : List ℕ)
      → IsValid c xs
      → length xs < fuel
      → (c' : Collection A) × (destroy fd fuel c ≡ ok c')
        × IsValid c' []
        × (c'.closed ≡ c.closed ++ map (λ a. fd (c.entry a)) xs)
  unfolding destroy
  destroy-IsValid fd zero c xs valid enough = absurd (omega (arith, enough))
  destroy-IsValid fd (suc fuel) c [] valid enough =
      let empty = is_empty-Holds c.heap c.list [] valid.holds in
      (c, rw empty refl, valid, sym (append-nil c.closed))
  destroy-IsValid fd (suc fuel) c (x ∷ xs) valid enough =
      let some_left : (length (x ∷ xs) == 0) ≡ false = ground arith in
      let empty = is_empty-Holds c.heap c.list (x ∷ xs) valid.holds in
      let first = first_elem-Holds c.heap c.list x xs valid.holds in
      let (d, ran, valid', closed, same, _) = delete-IsValid fd c [] x xs valid in
      let (e, ran', done, all) = destroy-IsValid fd fuel d xs valid' (omega (arith, enough)) in
      (
        e,
        rw (empty, some_left, first, ran) ran',
        done,
        all
            ∙ rw (closed, same)
                (append_assoc c.closed (fd (c.entry x) ∷ []) (map (λ a. fd (c.entry a)) xs)),
      )
