-- ===== src/Messenger/Server/Owning.antt =====
-- What becomes of the descriptors that the server of messenger/src/messenger.c accepts.
use multiprocessor.Common.{
  c_string, find_byte, Option-cases, ◌++◌, set, ◌≡◌, ap, leb, map, Option, ◌⊎◌, refl, Bool-cases,
  ok, sym, ◌-◌, none, inl, ◌≤◌, List, arith, [], ◌+◌, ◌==◌, ℕ, ◌<◌, ◌∷◌, some, count, fault, false,
  inr, ◌∙◌,
}
use multiprocessor.Messenger.{Message, Connection}
use multiprocessor.Messenger.Receive.{read_connection_data, extract_message, received}
use multiprocessor.Messenger.Extract.{extract-eq, copied, parse-cases}
use multiprocessor.Collections.{put}
use multiprocessor.Collections.Laws.{IsValid}
use multiprocessor.Messenger.Server
use multiprocessor.Messenger.Server.{
  Server, Guest, PollEvent, Waiting, Waited, store_connection, execute_message, accept_guest,
  serve_readable, handle_event, handle_events, process_loop,
}

abbrev pub fds : (entry : ℕ → Connection) → List ℕ → List ℕ
fds entry xs = map (λ x. (entry x).fd) xs

-- The list holds the connections at `xs`, and every descriptor that was accepted is of one of them, or
-- closed.
pub record Owns (srv : Server) (xs : List ℕ) : Type 0 where
  pub valid : IsValid srv.connections xs
  pub owned :
      (d : ℕ)
      → count d srv.connections.closed + count d (fds srv.connections.entry xs)
        ≡ count d srv.accepted

-- The connections that events are of.
abbrev pub targets : List PollEvent → List ℕ
targets [] = []
targets (Server.incoming guest ∷ events) = targets events
targets (Server.readable address a ∷ events) = address ∷ targets events

-- Each is of a connection of the list, and no two are of the same.
abbrev pub Reported : List PollEvent → List ℕ → Type 0
Reported events xs = (a : ℕ) → count a (targets events) ≤ count a xs

pub split-count :
    (a : ℕ) (xs : List ℕ) → 0 < count a xs → (l : List ℕ) × (r : List ℕ) × (xs ≡ l ++ a ∷ r)
split-count a [] some_there = absurd (omega (arith, some_there))
split-count a (x ∷ xs) some_there = elim (Bool-cases (x == a)) [
  | inl same ↦ let e : x ≡ a = ground (arith, same) in ([], xs, ap (λ t. t ∷ xs) e)
  | inr other ↦
      let later : 0 < count a xs = ground (arith, some_there, other) in
      let (l, r, e) = split-count a xs later in (x ∷ l, r, ap (λ t. x ∷ t) e)
]

pub fds-append : (f : ℕ → Connection) (xs ys : List ℕ) → fds f (xs ++ ys) ≡ fds f xs ++ fds f ys
fds-append f [] ys = refl
fds-append f (x ∷ xs) ys = ap (λ t. (f x).fd ∷ t) (fds-append f xs ys)

pub fds-absent :
    (f : ℕ → Connection) (a : ℕ) (conn : Connection) (xs : List ℕ)
    → count a xs ≡ 0
    → fds (put f a conn) xs ≡ fds f xs
fds-absent f a conn [] absent = refl
fds-absent f a conn (x ∷ xs) absent =
    let other : (x == a) ≡ false = ground (arith, absent) in
    rw (other, fds-absent f a conn xs (ground (arith, absent))) refl

-- A connection that keeps its descriptor.
fds-same :
    (f : ℕ → Connection) (a : ℕ) (conn : Connection) (xs : List ℕ)
    → conn.fd ≡ (f a).fd
    → fds (put f a conn) xs ≡ fds f xs
fds-same f a conn [] same = refl
fds-same f a conn (x ∷ xs) same =
    let head : (put f a conn x).fd ≡ (f x).fd = elim (Bool-cases (x == a)) [
      | inl it ↦ let e : x ≡ a = ground (arith, it) in rw it (same ∙ ap (λ z. (f z).fd) (sym e))
      | inr other ↦ rw other refl
    ] in
    rw (head, fds-same f a conn xs same) refl

pub store-Owns :
    (address : ℕ) (conn : Connection) (srv : Server) (xs : List ℕ)
    → conn.fd ≡ (srv.connections.entry address).fd
    → Owns srv xs
    → Owns (store_connection address conn srv) xs
store-Owns address conn srv xs same owns = record {
  valid = record { holds = owns.valid.holds; counted = owns.valid.counted };
  owned = λ d.
      ap (λ t. count d srv.connections.closed + count d t)
        (fds-same srv.connections.entry address conn xs same)
      ∙ owns.owned d;
}

received-fd : (bytes : Option (List ℕ)) (conn : Connection) → (received bytes conn).0.fd ≡ conn.fd
received-fd none conn = refl
received-fd (some []) conn = refl
received-fd (some (b ∷ bytes)) conn = refl

pub read-fd :
    (read : ℕ → Option (List ℕ)) (conn : Connection)
    → (read_connection_data read conn).0.fd ≡ conn.fd
unfolding read_connection_data
read-fd read conn = elim (Bool-cases (leb 513 conn.offset)) [
  | inl full ↦ rw full refl
  | inr room ↦ rw room (received-fd (read (513 - conn.offset)) conn)
]

pub extract-fd :
    (conn : Connection) (m : Message)
    → (extract_message conn m ≡ fault)
      ⊎ ((conn' : Connection) × (m' : Message) × (extract_message conn m ≡ ok (conn', m'))
          × (conn'.fd ≡ conn.fd))
unfolding extract_message
extract-fd conn m = elim (Option-cases (find_byte 10 conn.offset conn.buffer)) [
  | inl none_found ↦ inl (rw (extract_message, none_found) refl)
  | inr (endl, found) ↦ elim (Option-cases (c_string (set conn.buffer endl 0))) [
    | inl unended ↦ inl (rw (extract_message, found, unended) refl)
    | inr (text, holds) ↦ elim (parse-cases (copied text m)) [
      | inl wrong ↦ inl (extract-eq text endl conn m fault found holds wrong)
      | inr (m', parsed, _) ↦ inr (
        record conn { buffer = set conn.buffer endl 0 },
        m',
        extract-eq text endl conn m (ok m') found holds parsed,
        refl,
      )
    ]
  ]
]
