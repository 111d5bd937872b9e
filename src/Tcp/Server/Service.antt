-- ===== src/Tcp/Server/Service.antt =====
-- What a round of the server of tcp/src/tcp_process.c does to its connections.
use mathlib.Core.Path.{subst}
use multiprocessor.Common.{
  ◌>>=◌, Run, false, Bool-cases, count, true, arith, ℕ, map, ◌==◌, ◌++◌, ap, ◌∷◌, ◌+◌, refl, sym,
  inr, ◌≡◌, List, [], ok, ◌∙◌, inl,
}
use multiprocessor.LinkedList
use multiprocessor.LinkedList.Rings.{Segment-split, count-append, Segment}
use multiprocessor.Collections.{Collection, put}
use multiprocessor.Collections.Laws.{add-append, delete-IsValid}
use multiprocessor.Collections.Laws
use multiprocessor.Tcp.{Session}
use multiprocessor.Tcp.Lines
use multiprocessor.Tcp.Lines.{Keeps, IsRead, round-IsValid}
use multiprocessor.Tcp.Server.{Server, store_session, connection_delete}

module _ {ℓ κ} {A : Type ℓ} (P : A → Type κ) where
  -- All structs of a list.
  abbrev pub Each : (entry : ℕ → A) → List ℕ → Type κ
  Each entry [] = Unit
  Each entry (x ∷ xs) = P (entry x) × Each entry xs

  pub Each-put :
      (entry : ℕ → A) (a : ℕ) (v : A) (xs : List ℕ)
      → count a xs ≡ 0
      → Each entry xs
      → Each (put entry a v) xs
  Each-put entry a v [] absent each = tt
  Each-put entry a v (x ∷ xs) absent each =
      let other : (x == a) ≡ false = ground (arith, absent) in
      (rw other each.0, Each-put entry a v xs (ground (arith, absent)) each.1)

  pub Each-append :
      (entry : ℕ → A) (xs ys : List ℕ) → Each entry xs → Each entry ys → Each entry (xs ++ ys)
  Each-append entry [] ys each each' = each'
  Each-append entry (x ∷ xs) ys each each' = (each.0, Each-append entry xs ys each.1 each')

  pub Each-split :
      (entry : ℕ → A) (xs ys : List ℕ) → Each entry (xs ++ ys) → Each entry xs × Each entry ys
  Each-split entry [] ys each = (tt, each)
  Each-split entry (x ∷ xs) ys each = let (l, r) = Each-split entry xs ys each.1 in ((each.0, l), r)

-- A connection in the list.
pub record IsServed (s : Session) : Type 0 where
  pub valid : Lines.IsValid s
  pub is_open : s.is_open ≡ true

abbrev pub fds : (entry : ℕ → Session) → List ℕ → List ℕ
fds entry xs = map (λ x. (entry x).conn.fd) xs

-- The list holds the connections at `xs`, no byte of theirs is lost, and every socket that was accepted
-- is in the list or closed, and not both.
pub record Serves (srv : Server) (xs : List ℕ) : Type 0 where
  pub valid : Laws.IsValid srv.connections xs
  pub each : Each IsServed srv.connections.entry xs
  pub owned :
      (d : ℕ)
      → count d srv.connections.closed + count d (fds srv.connections.entry xs)
        ≡ count d srv.accepted

fds-same :
    (f g : ℕ → Session) (xs : List ℕ)
    → ((x : ℕ) → (f x).conn.fd ≡ (g x).conn.fd)
    → fds f xs ≡ fds g xs
fds-same f g [] same = refl
fds-same f g (x ∷ xs) same = rw (same x, fds-same f g xs same) refl

pub fds-append : (f : ℕ → Session) (xs ys : List ℕ) → fds f (xs ++ ys) ≡ fds f xs ++ fds f ys
fds-append f [] ys = refl
fds-append f (x ∷ xs) ys = ap (λ t. (f x).conn.fd ∷ t) (fds-append f xs ys)

-- An element of a valid list stands once in it, and is neither the list itself nor `NULL`.
pub record Once (c : Collection Session) (l : List ℕ) (x : ℕ) (r : List ℕ) : Type 0 where
  pub before : count x l ≡ 0
  pub behind : count x r ≡ 0
  pub nonnull : (x == 0) ≡ false
  pub inside : (x == c.list) ≡ false

pub once_lem :
    (c : Collection Session) (l : List ℕ) (x : ℕ) (r : List ℕ)
    → Laws.IsValid c (l ++ x ∷ r)
    → Once c l x r
once_lem c l x r valid =
    let apart = valid.holds.ring.apart in
    let parts = count-append x l (x ∷ r) in
    let null_parts = count-append 0 l (x ∷ r) in
    let once = apart.once x in
    record {
      before = ground (arith, once, parts);
      behind = ground (arith, once, parts);
      nonnull = ground (arith, apart.nonnull, null_parts);
      inside = ground (arith, once, parts);
    }

abbrev pub head_of : (list : ℕ) → List ℕ → ℕ
head_of list [] = list
head_of list (x ∷ xs) = x

pub next_of :
    (h : LinkedList.Heap) (x : ℕ) (r : List ℕ) (list : ℕ)
    → Segment h x r list
    → h.next x ≡ head_of list r
next_of h x [] list s = s.0
next_of h x (y ∷ r) list s = s.0

pub next_lem :
    (c : Collection Session) (l : List ℕ) (x : ℕ) (r : List ℕ)
    → Laws.IsValid c (l ++ x ∷ r)
    → LinkedList.load_next c.heap x ≡ ok (head_of c.list r)
next_lem c l x r valid =
    let o = once_lem c l x r valid in
    let (_, back) = Segment-split c.heap c.list l x r c.list valid.holds.ring.links in
    rw o.nonnull (ap ok (next_of c.heap x r c.list back))

-- What holds of the list and of all but one of its connections.
pub record Others (srv : Server) (l : List ℕ) (x : ℕ) (r : List ℕ) : Type 0 where
  pub valid : Laws.IsValid srv.connections (l ++ x ∷ r)
  pub before : Each IsServed srv.connections.entry l
  pub behind : Each IsServed srv.connections.entry r
  pub owned :
      (d : ℕ)
      → count d srv.connections.closed + count d (fds srv.connections.entry (l ++ x ∷ r))
        ≡ count d srv.accepted

-- A session with the same descriptor is put for one of the list.
pub store-Others :
    (srv : Server) (l : List ℕ) (x : ℕ) (r : List ℕ) (s : Session)
    → Serves srv (l ++ x ∷ r)
    → s.conn.fd ≡ (srv.connections.entry x).conn.fd
    → Others (store_session x s srv) l x r
store-Others srv l x r s serves same =
    let entry = srv.connections.entry in
    let o = once_lem srv.connections l x r serves.valid in
    let (before, behind) = Each-split IsServed entry l (x ∷ r) serves.each in
    let as_before = λ (y : ℕ).
      elim (Bool-cases (y == x)) as (λ _. (put entry x s y).conn.fd ≡ (entry y).conn.fd) [
        | inl it ↦
            let e : y ≡ x = ground (arith, it) in rw it (same ∙ ap (λ z. (entry z).conn.fd) (sym e))
        | inr other ↦ rw other refl
      ] in
    record {
      valid = record { holds = serves.valid.holds; counted = serves.valid.counted };
      before = Each-put IsServed entry x s l o.before before;
      behind = Each-put IsServed entry x s r o.behind behind.1;
      owned = λ d.
          ap (λ t. count d srv.connections.closed + count d t)
            (fds-same (put entry x s) entry (l ++ x ∷ r) as_before)
          ∙ serves.owned d;
    }

pub Others-Serves :
    (srv : Server) (l : List ℕ) (x : ℕ) (r : List ℕ)
    → Others srv l x r
    → IsServed (srv.connections.entry x)
    → Serves srv (l ++ x ∷ r)
Others-Serves srv l x r others served = record {
  valid = others.valid;
  each = Each-append IsServed srv.connections.entry l (x ∷ r) others.before (served, others.behind);
  owned = others.owned;
}

-- A server that goes on with a list; nothing else is said of it.
pub record Goes (list : ℕ) (xs : List ℕ) (r : Run Server) : Type 0 where
  pub left : Server
  pub ran : r ≡ ok left
  pub serves : Serves left xs
  pub at : left.connections.list ≡ list

pub delete-Goes :
    (srv : Server) (l : List ℕ) (x : ℕ) (r : List ℕ)
    → Others srv l x r
    → Goes srv.connections.list (l ++ r) (connection_delete x srv)
delete-Goes srv l x r others =
    let entry = srv.connections.entry in
    let (c, ran, valid, closed, same, at) =
      delete-IsValid (λ s. s.conn.fd) srv.connections l x r others.valid in
    record {
      left = record srv { connections = c };
      ran = ap (λ r. r >>= λ c. ok (record srv { connections = c })) ran;
      serves = record {
        valid = valid;
        each =
            subst (λ e. Each IsServed e (l ++ r)) (sym same)
              (Each-append IsServed entry l r others.before others.behind);
        owned = λ d.
            let closed_count : count d c.closed
                ≡ count d (srv.connections.closed ++ (entry x).conn.fd ∷ []) =
              ap (count d) closed in
            let now : count d (fds c.entry (l ++ r)) ≡ count d (fds entry l ++ fds entry r) =
              ap (λ e. count d (fds e (l ++ r))) same ∙ ap (count d) (fds-append entry l r) in
            let then_ : count d (fds entry (l ++ x ∷ r))
                ≡ count d (fds entry l ++ (entry x).conn.fd ∷ fds entry r) =
              ap (count d) (fds-append entry l (x ∷ r)) in
            omega (
              arith,
              closed_count,
              now,
              then_,
              others.owned d,
              count-append d srv.connections.closed ((entry x).conn.fd ∷ []),
              count-append d (fds entry l) (fds entry r),
              count-append d (fds entry l) ((entry x).conn.fd ∷ fds entry r),
            );
      };
      at = at;
    }
