-- ===== src/RingBuffer/Fifo.antt =====
-- What a ring holds, oldest first, and that it behaves as a bounded first-in first-out queue.
use mathlib.Core.Path.{ap₂}
use native.Mathlib.Nat.{add-zero}
use multiprocessor.Common.{
  inr, ◌∙◌, inl, sym, Bool-cases, get_or-replicate, length-replicate, replicate, some, true, ◌↔◌,
  ◌≤◌, blocked, Bool, ℕ, zero, suc, ◌+◌, ◌-◌, ◌<◌, ◌≡◌, refl, ap, arith, length, set, length-set,
  if◌then◌else◌, leb, ok, get_or, get_or-set_self, get_or-set_ne, List, [], ◌∷◌, ◌++◌,
}
use multiprocessor.RingBuffer.{create, int_max, post, wait, pop, push, extract, Ring, insert}
use multiprocessor.RingBuffer.Invariant.{extract-ok, IsSound, IsValid, tail, next_start, insert-ok}

-- One step round an array of `n` cells.
abbrev pub step_round : ℕ → ℕ → ℕ
step_round n i = if leb n (i + 1) then 0 else i + 1

-- The `k` values from index `i` on, going round at `n`.
abbrev pub window : List ℕ → ℕ → ℕ → ℕ → List ℕ
window buf n i zero = []
window buf n i (suc k) = get_or buf i 0 ∷ window buf n (step_round n i) k

abbrev pub contents : Ring → List ℕ
contents r = window r.buffer r.max_cnt r.start r.used

pub length-window : (buf : List ℕ) (n i k : ℕ) → length (window buf n i k) ≡ k
length-window buf n i zero = refl
length-window buf n i (suc k) = ap suc (length-window buf n (step_round n i) k)

-- Index `i + k`, once round.
abbrev wrap : ℕ → ℕ → ℕ
wrap n j = if leb n j then j - n else j

window-set :
    (buf : List ℕ) (n v k i j : ℕ)
    → length buf ≡ n
    → i < n
    → k < n
    → j ≡ wrap n (i + k)
    → window (set buf j v) n i (suc k) ≡ window buf n i k ++ v ∷ []
window-set buf n v zero i j size hi hk e =
    let at : j ≡ i = ground (arith, add-zero i) in
    rw at (ap (λ x. x ∷ []) (get_or-set_self buf i v 0 (omega arith)))
window-set buf n v (suc k) i j size hi hk e =
    ground (arith, get_or-set_ne buf j i v 0, window-set buf n v k (step_round n i) j size)

pub contents-pop_head :
    (r : Ring)
    → 0 < r.used
    → contents r ≡ get_or r.buffer r.start 0 ∷ window r.buffer r.max_cnt (next_start r) (r.used - 1)
contents-pop_head r some_used = go r.used some_used
  where
    go :
        (k : ℕ)
        → 0 < k
        → window r.buffer r.max_cnt r.start k
          ≡ get_or r.buffer r.start 0 ∷ window r.buffer r.max_cnt (next_start r) (k - 1)
    go zero h = elim h [ ]
    go (suc k) h =
        ap (λ t. get_or r.buffer r.start 0 ∷ window r.buffer r.max_cnt (next_start r) t)
          (omega arith)

-- What a returned ring satisfies: valid, with the given contents, and of the same size.
pub record Holds (n : ℕ) (xs : List ℕ) (r : Ring) : Type 0 where
  pub valid : IsValid r
  pub capacity : r.max_cnt ≡ n
  pub items : contents r ≡ xs

-- The critical section of a push appends the value, whatever the semaphore.
pub insert-append :
    {r : Ring} (v : ℕ)
    → IsSound r
    → r.used < r.max_cnt
    → (r' : Ring) × (insert v r ≡ ok r')
      × IsSound r'
      × (contents r' ≡ contents r ++ v ∷ [])
      × (r'.used ≡ r.used + 1)
      × (r'.max_cnt ≡ r.max_cnt)
      × (r'.sem ≡ r.sem)
insert-append {r} v s room = (
  record r { used = r.used + 1; buffer = set r.buffer (tail r) v },
  insert-ok v s room,
  ground (arith, length-set r.buffer (tail r) v),
  ground (arith, window-set r.buffer r.max_cnt v r.used r.start (tail r)),
  refl,
  refl,
  refl,
)

-- The critical section of a pop takes the oldest value, whatever the semaphore.
pub extract-uncons :
    {r : Ring}
    → IsSound r
    → 0 < r.used
    → (v : ℕ) × (r' : Ring) × (extract r ≡ ok (v, r'))
      × IsSound r'
      × (contents r ≡ v ∷ contents r')
      × (r.used ≡ r'.used + 1)
      × (r'.max_cnt ≡ r.max_cnt)
      × (r'.sem ≡ r.sem)
extract-uncons {r} s some_used = (
  get_or r.buffer r.start 0,
  record r { used = r.used - 1; start = next_start r },
  extract-ok s some_used,
  ground arith,
  contents-pop_head r some_used,
  omega arith,
  refl,
  refl,
)

-- On a valid ring with room, `ring_buffer_push` returns, keeps the invariant and the size, and
-- appends the value.
pub push-append :
    {r : Ring} (v : ℕ)
    → IsValid r
    → r.used < r.max_cnt
    → (r' : Ring) × (push v r ≡ ok r') × Holds r.max_cnt (contents r ++ v ∷ []) r'
unfolding push post
push-append {r} v h room =
    let (r', e, s, c, u, m, q) = insert-append v h.sound room in
    (
      post r',
      rw e,
      record {
        valid = record {
          sound = record {
            storage = s.storage;
            small = s.small;
            start_in = s.start_in;
            used_in = s.used_in;
          };
          counted = omega (arith, h.counted);
        };
        capacity = m;
        items = c;
      },
    )

-- A ring counts its contents.
pub length-contents : (r : Ring) → length (contents r) ≡ r.used
length-contents r = length-window r.buffer r.max_cnt r.start r.used

-- On a valid ring that holds `v` first, `ring_buffer_pop` returns `v`, keeps the invariant and the
-- size, and leaves the rest in order.
pub pop-uncons :
    {r : Ring} (v : ℕ) (xs : List ℕ)
    → IsValid r
    → contents r ≡ v ∷ xs
    → (r' : Ring) × (pop r ≡ ok (v, r')) × Holds r.max_cnt xs r'
unfolding pop wait
pop-uncons {r} v xs h e =
    let some_used : 0 < r.used = omega (arith, ap length e, length-contents r) in
    let taken : Ring = record r { sem = r.sem - 1 } in
    let sound : IsSound taken = ground arith in
    let (w, r', run, s, c, u, m, q) = extract-uncons {r = taken} sound some_used in
    let same : v ∷ xs ≡ w ∷ contents r' = sym e ∙ c in
    (
      r',
      ground arith,
      record {
        valid = record { sound = s; counted = omega (arith, h.counted) };
        capacity = m;
        items = cc;
      },
    )

-- On an empty ring `ring_buffer_pop` waits, and it waits on no other valid ring.
pub pop-blocked_iff : {r : Ring} → IsValid r → (pop r ≡ blocked) ↔ (contents r ≡ [])
unfolding pop wait extract
pop-blocked_iff {r} h =
    (λ b. ground (arith, extract-ok h.sound), λ e. ground (arith, ap length e, length-contents r))

window-replicate : (n i k : ℕ) → window (replicate n 0) n i k ≡ replicate k 0
window-replicate n i zero = refl
window-replicate n i (suc k) =
    ap₂ ◌∷◌ (get_or-replicate n i 0) (window-replicate n (step_round n i) k)

-- Where `malloc` and `sem_init` succeed, a ring of a positive size, twice which is an `int`, is
-- made; it is valid, and empty or full of zeros as asked.
pub create_lem :
    (n : ℕ) (empty : Bool)
    → 0 < n
    → n + n ≤ int_max
    → (r : Ring) × (create true true n empty ≡ some r)
      × Holds n (if empty then [] else replicate n 0) r
unfolding create
create_lem n empty pos small = (
  _,
  refl,
  record {
    valid = ground (arith, length-replicate {A = ℕ} n 0);
    capacity = refl;
    items = elim (Bool-cases empty) [ inl e ↦ rw e refl | inr e ↦ rw e (window-replicate n 0 n) ];
  },
)
