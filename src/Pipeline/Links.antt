-- ===== src/Pipeline/Links.antt =====
-- A step of any thread in a chain of modules of pipeline/src/pipeline_server.c keeps the links
-- between the modules and the buffers of the whole.
use multiprocessor.Pipeline.Steps.{thread-Kept}
use multiprocessor.Pipeline.Kept.{Later-PcOf, Later-away, Kept, Fine, Turn, PcOf, held, receiving}
use multiprocessor.Pipeline.System.{at_start, starts_at, pending, or_same, advance}
use multiprocessor.Pipeline.Threads.{thread}
use multiprocessor.Pipeline.Pool.{Pool}
use multiprocessor.Pipeline.{Module, finalization, source, copy_cmd}
use multiprocessor.Common.{
  true, ap, weigh-one, inl, inr, Run-cases, fault, refl, Run, ok, some, blocked, none, sym, ◌>>=◌,
  arith, ◌∙◌, Option, zero, ◌+◌, suc, ◌≤◌, [], List, ◌≡◌, ◌≢◌, Bool, weigh, ℕ, ◌∷◌, length,
}

-- The modules behind `m`, in order: only the last one is a `finalization_thread`, and each link has
-- exactly one holder of the turn.
abbrev pub Tail : Module → List Module → Type 0
Tail m [] = m.kind ≡ finalization
Tail m (n ∷ ms) =
    (m.kind ≢ finalization) × (n.kind ≢ source) × PcOf n.kind n.pc × Turn m.pc n × Tail n ms

abbrev pub Chain : List Module → Type 0
Chain [] = ⊥
Chain (m ∷ ms) = (m.kind ≡ source) × PcOf m.kind m.pc × Tail m ms

pub Fine-bind {ℓ κ} :
    {A : Type ℓ} {B : Type κ} {P : A → Type 0} (Q : B → Type 0) (r : Run A) (f : A → Run B)
    → Fine P r
    → ((a : A) → P a → Fine Q (f a))
    → Fine Q (r >>= f)
Fine-bind Q (ok a) f p next = next a p
Fine-bind Q blocked f p next = tt
Fine-bind Q fault f p next = p

-- What stands behind a module depends on its kind and its place alone.
pub Tail-same :
    (m m' : Module) (ms : List Module) → m'.kind ≡ m.kind → m'.pc ≡ m.pc → Tail m ms → Tail m' ms
Tail-same m m' [] kind at tail = kind ∙ tail
Tail-same m m' (n ∷ ms) kind at tail =
    (λ e. tail.0 (sym kind ∙ e), tail.1, tail.2, rw at tail.3, tail.4)

module _ (pool : Pool) (cap : ℕ) where
  open pool use {Store, Good, items}

  -- What a step of the thread at a position leaves, behind a first module `m`.
  abbrev Left :
      (ℕ → ℕ) → (entries : ℕ) → Store → Module → List Module → Store × List Module → Type 0
  Left w e s m ms (s', []) = ⊥
  Left w e s m ms (s', m' ∷ ms') =
      Good cap s'
      × (weigh w (items s') + (held w m' + weigh (held w) ms')
          ≡ weigh w (items s) + (held w m + weigh (held w) ms))
      × (m'.kind ≡ m.kind)
      × PcOf m.kind m'.pc
      × (m'.result + m'.new_cmd + receiving m'.pc ≡ m.result + m.new_cmd + receiving m.pc)
      × Tail m' ms'
      × (pending m' + weigh pending ms' + e ≡ pending m + weigh pending ms)

  last_weight :
      (w : ℕ → ℕ) (s : Store) (m : Module) (out : Store × Module × Option Module)
      → Kept pool cap w s m none out
      → weigh w (items out.0) + (held w out.1 + 0) ≡ weigh w (items s) + (held w m + 0)
  last_weight w s m (s', m', none) k = omega (arith, k.weight)
  last_weight w s m (s', m', some n') k = absurd k.side

  -- A step of the thread of `m` beside `n`.
  pair_Left :
      (w : ℕ → ℕ) (s : Store) (m n : Module) (ms : List Module)
      → Tail m (n ∷ ms)
      → (s' : Store) (m' : Module) (next' : Option Module)
      → Kept pool cap w s m (some n) (s', m', next')
      → Left w (at_start m.pc) s m (n ∷ ms) (s', m' ∷ or_same next' n ∷ ms)
  pair_Left w s m n ms tail s' m' none k = absurd k.side
  pair_Left w s m n ms tail s' m' (some n') k = (
    k.good,
    omega (arith, k.weight),
    k.same_kind,
    Later-PcOf m.kind m'.pc k.in_place,
    k.incoming,
    (
      λ e. tail.0 (sym k.same_kind ∙ e),
      λ e. tail.1 (sym k.side.1 ∙ e),
      ground (arith, k.side),
      k.turn,
      Tail-same n n' ms k.side.1 k.side.0 tail.4,
    ),
    omega (arith, Later-away m.kind m'.pc k.in_place, ap at_start k.side.0),
  )

  -- A step further down the chain.
  behind_Left :
      (w : ℕ → ℕ) (e : ℕ) (s : Store) (m n : Module) (ms : List Module)
      → PcOf m.kind m.pc
      → Tail m (n ∷ ms)
      → (s' : Store) (ms' : List Module) → Left w e s n ms (s', ms')
      → Left w e s m (n ∷ ms) (s', m ∷ ms')
  behind_Left w e s m n ms place tail s' [] left = absurd left
  behind_Left w e s m n ms place tail s' (n' ∷ ms') left = (
    left.0,
    omega (arith, left.1),
    refl,
    place,
    refl,
    (tail.0, λ e. tail.1 (sym left.2 ∙ e), rw left.2 left.3, omega (arith, left.4, tail.3), left.5),
    omega (arith, left.6),
  )

  advance-Left :
      (w : ℕ → ℕ) (exit_flag has_entry : Bool) (i : ℕ) (s : Store) (m : Module) (ms : List Module)
      → Good cap s
      → PcOf m.kind m.pc
      → (m.pc ≡ copy_cmd → m.new_cmd ≡ 0)
      → Tail m ms
      → length (items s) + (held (λ _. 1) m + weigh (held (λ _. 1)) ms) ≤ cap
      → (starts_at i (m ∷ ms) ≡ 1 → has_entry ≡ true)
      → Fine (Left w (starts_at i (m ∷ ms)) s m ms) (advance pool exit_flag has_entry i s (m ∷ ms))
  unfolding advance
  advance-Left w exit_flag has_entry zero s m [] good place empty tail all enters =
      Fine-bind (Left w (at_start m.pc) s m []) (thread pool exit_flag has_entry s m none) _
        (thread-Kept pool cap w has_entry s m none
          (record {
            good = good;
            place = place;
            turn = tt;
            empty_box = empty;
            room = λ c. ground arith;
            can_start = λ at. enters (ap at_start at);
            has_next = λ other. absurd (other tail);
          })
          exit_flag)
        λ out k. (
          k.good,
          last_weight w s m out k,
          k.same_kind,
          Later-PcOf m.kind out.1.pc k.in_place,
          k.incoming,
          k.same_kind ∙ tail,
          omega (arith, Later-away m.kind out.1.pc k.in_place),
        )
  advance-Left w exit_flag has_entry zero s m (n ∷ ms) good place empty tail all enters =
      Fine-bind (Left w (at_start m.pc) s m (n ∷ ms)) (thread pool exit_flag has_entry s m (some n))
        _
        (thread-Kept pool cap w has_entry s m (some n)
          (record {
            good = good;
            place = place;
            turn = tail.3;
            empty_box = empty;
            room = λ c. ground arith;
            can_start = λ at. enters (ap at_start at);
            has_next = λ other e. cc;
          })
          exit_flag)
        λ (s', m', next') k. pair_Left w s m n ms tail s' m' next' k
  advance-Left w exit_flag has_entry (suc i) s m [] good place empty tail all enters = tt
  advance-Left w exit_flag has_entry (suc i) s m (n ∷ ms) good place empty tail all enters =
      Fine-bind (Left w (starts_at i (n ∷ ms)) s m (n ∷ ms))
        (advance pool exit_flag has_entry i s (n ∷ ms)) _
        (advance-Left w exit_flag has_entry i s n ms good tail.2 (λ c. ground arith) tail.4
          (omega (arith, all)) enters)
        λ (s', ms') left. behind_Left w (starts_at i (n ∷ ms)) s m n ms place tail s' ms' left

  -- A chain and its pool, of the given weight.
  abbrev pub Whole : ((ℕ → ℕ) → ℕ) → Store × List Module → Type 0
  Whole total (s, ms) =
      Good cap s × Chain ms × ((w : ℕ → ℕ) → weigh w (items s) + weigh (held w) ms ≡ total w)

  -- The same behind a step of the thread at a position, which has used up entries of the table.
  abbrev pub Moved : ((ℕ → ℕ) → ℕ) → ℕ → List Module → Store × List Module → Type 0
  Moved total e ms (s', ms') = Whole total (s', ms') × (weigh pending ms' + e ≡ weigh pending ms)

  Whole-of_Left :
      (total : (ℕ → ℕ) → ℕ) (e : ℕ) (s : Store) (m : Module) (ms : List Module)
      → Whole total (s, m ∷ ms)
      → (s' : Store) (ms' : List Module) → ((w : ℕ → ℕ) → Left w e s m ms (s', ms'))
      → Moved total e (m ∷ ms) (s', ms')
  Whole-of_Left total e s m ms all s' [] left = absurd (left (λ _. 0))
  Whole-of_Left total e s m ms all s' (m' ∷ ms') left =
      let (good, weight, kind, place, incoming, tail, used) = left (λ _. 0) in
      ((good, (kind ∙ all.1.0, rw kind place, tail), λ w. (left w).1 ∙ all.2 w), used)

  module _ (total : (ℕ → ℕ) → ℕ) (fits : total (λ _. 1) ≤ cap) where
    pub advance-Whole :
        (exit_flag has_entry : Bool) (i : ℕ) (s : Store) (ms : List Module)
        → Whole total (s, ms)
        → (starts_at i ms ≡ 1 → has_entry ≡ true)
        → Fine (Moved total (starts_at i ms) ms) (advance pool exit_flag has_entry i s ms)
    advance-Whole exit_flag has_entry i s [] all enters = absurd all.1
    advance-Whole exit_flag has_entry i s (m ∷ ms) all enters =
        let source_box : m.pc ≡ copy_cmd → m.new_cmd ≡ 0 =
          λ at. absurd (rw (all.1.0, at) at all.1.1) in
        let step = λ (w : ℕ → ℕ).
          advance-Left w exit_flag has_entry i s m ms all.0 all.1.1 source_box all.1.2
            (omega (arith, all.2 (λ _. 1), weigh-one (items s))) enters in
        elim (Run-cases (advance pool exit_flag has_entry i s (m ∷ ms))) [
          | inl b ↦ rw b tt
          | inr (inl f) ↦ absurd (rw f at step (λ _. 0))
          | inr (inr ((s', ms'), run)) ↦
              rw run (
                Whole-of_Left total (starts_at i (m ∷ ms)) s m ms all s' ms'
                  (λ w. rw run at step w))
        ]
