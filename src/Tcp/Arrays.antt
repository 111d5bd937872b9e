-- ===== src/Tcp/Arrays.antt =====
-- Parts of arrays: what is written, searched and moved in the buffers of tcp/src/tcp_process.c.
use mathlib.Core.Option.{none-ne-some}
use multiprocessor.Common.{
  Option-cases, some-injective, take, write_at, find_byte, drop, set, Bool-cases, ◌≤◌, [], ◌-◌,
  length, ◌∙◌, ◌==◌, count, ◌<◌, ℕ, ◌+◌, ap, arith, sym, zero, List, ◌≡◌, ◌++◌, inr, some,
  length-append, suc, ◌∷◌, refl, inl,
}
use multiprocessor.Tcp.{shift, max_buffer_size}

pub length-take : (n : ℕ) (xs : List ℕ) → n ≤ length xs → length (take n xs) ≡ n
length-take zero xs enough = refl
length-take (suc n) [] enough = absurd (omega (arith, enough))
length-take (suc n) (x ∷ xs) enough = ap suc (length-take n xs (omega (arith, enough)))

pub length-drop : (n : ℕ) (xs : List ℕ) → length (drop n xs) ≡ length xs - n
length-drop zero xs = omega arith
length-drop (suc n) [] = omega arith
length-drop (suc n) (x ∷ xs) = omega (arith, length-drop n xs)

pub take-append_length : (xs ys : List ℕ) (n : ℕ) → n ≡ length xs → take n (xs ++ ys) ≡ xs
take-append_length [] ys zero e = refl
take-append_length [] ys (suc n) e = absurd (omega (arith, e))
take-append_length (x ∷ xs) ys zero e = absurd (omega (arith, e))
take-append_length (x ∷ xs) ys (suc n) e =
    ap (λ t. x ∷ t) (take-append_length xs ys n (omega (arith, e)))

pub take-append_le : (n : ℕ) (xs ys : List ℕ) → n ≤ length xs → take n (xs ++ ys) ≡ take n xs
take-append_le zero xs ys enough = refl
take-append_le (suc n) [] ys enough = absurd (omega (arith, enough))
take-append_le (suc n) (x ∷ xs) ys enough =
    ap (λ t. x ∷ t) (take-append_le n xs ys (omega (arith, enough)))

-- Bytes behind the first `i` ones.
pub take-write :
    (i : ℕ) (new array : List ℕ)
    → i ≤ length array
    → take (i + length new) (write_at i new array) ≡ take i array ++ new
take-write i new array enough =
    take-append_length (take i array ++ new) (drop (i + length new) array) (i + length new)
      (omega (arith, length-take i array enough, length-append (take i array) new))

pub length-write :
    (i : ℕ) (new array : List ℕ)
    → i + length new ≤ length array
    → length (write_at i new array) ≡ length array
length-write i new array enough = omega (
  arith,
  length-append (take i array ++ new) (drop (i + length new) array),
  length-append (take i array) new,
  length-take i array (omega (arith, enough)),
  length-drop (i + length new) array,
)

-- A byte that was found: it is the first one, and it parts what was searched.
pub record Found (b n : ℕ) (xs : List ℕ) (e : ℕ) : Type 0 where
  pub inside : e < n
  pub parts : take n xs ≡ take e xs ++ b ∷ take (n - (e + 1)) (drop (e + 1) xs)
  pub none_before : count b (take e xs) ≡ 0

pub find_byte-Found : (b n : ℕ) (xs : List ℕ) (e : ℕ) → find_byte b n xs ≡ some e → Found b n xs e
find_byte-Found b zero xs e found = absurd (none-ne-some e found)
find_byte-Found b (suc n) [] e found = absurd (none-ne-some e found)
find_byte-Found b (suc n) (x ∷ xs) e found = elim (Bool-cases (x == b)) [
  | inl here ↦
      let at_0 : 0 ≡ e = some-injective (sym (rw here refl) ∙ found) in
      let xb : x ≡ b = ground arith in
      let fewer : suc n - 1 ≡ n = omega arith in
      rw (← at_0) (record { inside = omega arith; parts = rw (fewer, xb) refl; none_before = refl })
  | inr other ↦ elim (Option-cases (find_byte b n xs)) [
    | inl missing ↦ absurd (none-ne-some e (sym (rw (other, missing) refl) ∙ found))
    | inr (k, later) ↦
        let f = find_byte-Found b n xs k later in
        let fewer : suc n - (suc k + 1) ≡ n - (k + 1) = omega arith in
        let next : suc k + 1 ≡ suc (k + 1) = omega arith in
        let at_later : suc k ≡ e = some-injective (sym (rw (other, later) refl) ∙ found) in
        rw (← at_later) (record {
          inside = omega (arith, f.inside);
          parts = ap (λ t. x ∷ t) f.parts ∙ rw (fewer, next) refl;
          none_before = ground (arith, other, f.none_before);
        })
  ]
]

pub drop-set : (e v : ℕ) (xs : List ℕ) → drop (e + 1) (set xs e v) ≡ drop (e + 1) xs
drop-set zero v [] = refl
drop-set zero v (x ∷ xs) = refl
drop-set (suc e) v [] = refl
drop-set (suc e) v (x ∷ xs) =
    let next : suc e + 1 ≡ suc (e + 1) = omega arith in rw next (drop-set e v xs)

pub length-shift :
    (n : ℕ) (xs : List ℕ)
    → n ≤ max_buffer_size
    → length xs ≡ max_buffer_size
    → length (shift n xs) ≡ max_buffer_size
length-shift n xs small len = omega (
  arith,
  small,
  len,
  length-append (drop n xs) (drop (max_buffer_size - n) xs),
  length-drop n xs,
  length-drop (max_buffer_size - n) xs,
)
