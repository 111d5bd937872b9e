-- ===== src/Pipeline/Pool.antt =====
-- What the pipeline needs of the pool of free buffers, and the ring buffer as such a pool.
use multiprocessor.RingBuffer.Fifo.{
  length-contents, push-append, pop-blocked_iff, pop-uncons, contents,
}
use multiprocessor.RingBuffer.Invariant.{IsValid}
use multiprocessor.RingBuffer.{Ring}
use multiprocessor.Common.{
  ◌∷◌, List, [], refl, arith, sym, ℕ, fault, ◌∙◌, blocked, ◌++◌, ◌<◌, Run, length, ok, ◌≡◌, ◌≢◌,
}
use multiprocessor.RingBuffer

-- `Good n s` says that the store is in order and has room for `n` values.
pub record Pool : Type 1 where
  pub Store : Type 0
  pub give : ℕ → Store → Run Store
  pub take : Store → Run (ℕ × Store)
  pub Good : ℕ → Store → Type 0
  pub items : Store → List ℕ
  pub give_law :
      (n v : ℕ) (s : Store)
      → Good n s
      → length (items s) < n
      → (s' : Store) × (give v s ≡ ok s') × Good n s' × (items s' ≡ items s ++ v ∷ [])
  pub take_law :
      (n v : ℕ) (s : Store) (xs : List ℕ)
      → Good n s
      → items s ≡ v ∷ xs
      → (s' : Store) × (take s ≡ ok (v, s')) × Good n s' × (items s' ≡ xs)
  pub take_empty : (n : ℕ) (s : Store) → Good n s → items s ≡ [] → take s ≡ blocked

module _ (pool : Pool) where
  open pool use {Store, give, take, Good, items, give_law, take_law, take_empty}

  -- What a value taken says of the store before.
  pub take-eq-ok :
      (n v : ℕ) (s s' : Store)
      → Good n s
      → take s ≡ ok (v, s')
      → Good n s' × (items s ≡ v ∷ items s')
  take-eq-ok n v s s' good e = go (items s) refl
    where
      go : (xs : List ℕ) → items s ≡ xs → Good n s' × (items s ≡ v ∷ items s')
      go [] none_left = let b = take_empty n s good none_left in let c = sym e ∙ b in cc
      go (w ∷ ws) split =
          let (t, run, good', rest) = take_law n w s ws good split in
          let same : ◌≡◌ {A = Run (ℕ × Store)} (ok (v, s')) (ok (w, t)) = sym e ∙ run in
          let at : s' ≡ t = cc in (rw at good', cc)

  pub give-eq-ok :
      (n v : ℕ) (s s' : Store)
      → Good n s
      → length (items s) < n
      → give v s ≡ ok s'
      → Good n s' × (items s' ≡ items s ++ v ∷ [])
  give-eq-ok n v s s' good room e =
      let (t, run, good', more) = give_law n v s good room in
      let same : ◌≡◌ {A = Run Store} (ok s') (ok t) = sym e ∙ run in
      let at : s' ≡ t = cc in (rw at good', rw at more)

  pub take-ne-fault : (n : ℕ) (s : Store) → Good n s → take s ≢ fault
  take-ne-fault n s good e = go (items s) refl
    where
      go : (xs : List ℕ) → items s ≡ xs → ⊥
      go [] none_left = let b = take_empty n s good none_left in let c = sym e ∙ b in cc
      go (w ∷ ws) split =
          let (t, run, good', rest) = take_law n w s ws good split in let c = sym e ∙ run in cc

-- A valid ring of `n` cells holding values from an array of that size.
abbrev RingGood : ℕ → Ring → Type 0
RingGood n r = IsValid r × (r.max_cnt ≡ n)

pub ring-give :
    (n v : ℕ) (r : Ring)
    → RingGood n r
    → length (contents r) < n
    → (r' : Ring) × (RingBuffer.push v r ≡ ok r')
      × RingGood n r'
      × (contents r' ≡ contents r ++ v ∷ [])
ring-give n v r (valid, size) room =
    let (r', run, h) = push-append v valid (omega (arith, length-contents r)) in
    (r', run, (h.valid, h.capacity ∙ size), h.items)

pub ring-take :
    (n v : ℕ) (r : Ring) (xs : List ℕ)
    → RingGood n r
    → contents r ≡ v ∷ xs
    → (r' : Ring) × (RingBuffer.pop r ≡ ok (v, r')) × RingGood n r' × (contents r' ≡ xs)
ring-take n v r xs (valid, size) e =
    let (r', run, h) = pop-uncons v xs valid e in (r', run, (h.valid, h.capacity ∙ size), h.items)

-- `ring_buffer_push` and `ring_buffer_pop` are the pool that the pipeline uses.
abbrev pub ring_pool : Pool
ring_pool = record {
  Store = Ring;
  give = RingBuffer.push;
  take = RingBuffer.pop;
  Good = RingGood;
  items = contents;
  give_law = ring-give;
  take_law = ring-take;
  take_empty = λ n r good e. (pop-blocked_iff good.0).1 e;
}
