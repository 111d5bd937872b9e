-- ===== src/Messenger/Server/Events.antt =====
-- The events that the server of messenger/src/messenger.c handles, and its loop.
use mathlib.Core.Path.{subst}
use multiprocessor.Common.{
  if_false, ◌<◌, if_true, inr, arith, ltb, ◌>>=◌, Option, true, ◌≡◌, Run, some, Bool-cases, Bool,
  ◌==◌, none, ◌∷◌, ◌+◌, List, fault, ◌++◌, length, count, ◌&&◌, [], inl, ◌≤◌, false, ◌∙◌, ap, ok, ℕ,
  ◌⊎◌, refl,
}
use multiprocessor.Messenger.{Message, Connection}
use multiprocessor.Messenger.Connect.{
  enter, server_add_connection, connection_delete, ni_maxhost, ni_maxserv,
}
use multiprocessor.Messenger.Receive.{Arrival, read_connection_data, extract_message}
use multiprocessor.Messenger.Sending.{Memory, enter_added, new-nonnull, blank_connection}
use multiprocessor.Collections.{Collection, put}
use multiprocessor.Collections.Laws.{IsValid, add-append, delete-IsValid}
use multiprocessor.LinkedList.Sequence.{is_new}
use multiprocessor.LinkedList.Rings.{count-append}
use multiprocessor.Messenger.Server
use multiprocessor.Messenger.Server.{
  Server, Guest, PollEvent, Waiting, Waited, store_connection, execute_message, accept_guest,
  serve_readable, handle_event, handle_events, process_loop,
}
use multiprocessor.Messenger.Server.Owning.{
  Owns, Reported, targets, fds, fds-append, fds-absent, store-Owns, read-fd, extract-fd,
  split-count,
}

-- A list of connections after one for a new descriptor was made.
record Entered (fd : ℕ) (c : Collection Connection) (xs : List ℕ) (c' : Collection Connection)
    (ys : List ℕ) : Type 0 where
  valid : IsValid c' ys
  more : (a : ℕ) → count a xs ≤ count a ys
  owned :
      (d : ℕ)
      → count d c'.closed + count d (fds c'.entry ys)
        ≡ count d c.closed + count d (fds c.entry xs) + count d (fd ∷ [])

enter-Entered :
    (address : ℕ) (epoll_ok : Bool) (host service : List ℕ) (fd : ℕ) (c : Collection Connection)
    (xs : List ℕ)
    → Memory address c xs
    → (enter address epoll_ok host service fd c ≡ fault)
      ⊎ ((r : Collection Connection × Bool) × (ys : List ℕ) × (enter address epoll_ok host service
              fd c
            ≡ ok r)
          × Entered fd c xs r.0 ys)
unfolding enter
enter-Entered address epoll_ok host service fd c xs memory = elim memory.fresh [
  | inl missing ↦ inr (
    (record c { closed = c.closed ++ fd ∷ [] }, false),
    xs,
    rw (enter, missing) refl,
    record {
      valid = record { holds = memory.valid.holds; counted = memory.valid.counted };
      more = λ a. omega arith;
      owned = λ d. omega (arith, count-append d c.closed (fd ∷ []));
    },
  )
  | inr new ↦
      let nonnull = new-nonnull c.list address xs new in
      elim (Bool-cases (ltb (length host) ni_maxhost && ltb (length service) ni_maxserv)) [
        | inr long ↦ inl (rw (enter, nonnull, long) refl)
        | inl short ↦
            let conn = blank_connection host service fd in
            let (h, ran, valid') = add-append address conn c xs memory.valid new in
            let c' = record c { heap = h; cnt = c.cnt + 1; entry = put c.entry address conn } in
            let step = enter_added address epoll_ok host service fd c c' nonnull short ran in
            let d = delete-IsValid (λ conn. conn.fd) c' xs address [] valid' in
            let absent : count address xs ≡ 0 = ground (arith, new) in
            let self : (address == address) ≡ true = ground arith in
            let all : fds c'.entry (xs ++ address ∷ []) ≡ fds c.entry xs ++ fd ∷ [] =
              fds-append c'.entry xs (address ∷ [])
              ∙ ap (λ t. t ++ (c'.entry address).fd ∷ [])
                  (fds-absent c.entry address conn xs absent)
              ∙ ap (λ (s : Connection). fds c.entry xs ++ s.fd ∷ [])
                  (if_true (address == address) conn (c.entry address) self) in
            elim (Bool-cases epoll_ok) [
              | inl taken ↦ inr (
                (c', true),
                xs ++ address ∷ [],
                step ∙ rw taken refl,
                record {
                  valid = valid';
                  more = λ a. omega (arith, count-append a xs (address ∷ []));
                  owned = λ d.
                      omega (arith, ap (count d) all, count-append d (fds c.entry xs) (fd ∷ []));
                },
              )
              | inr refused ↦ inl (step ∙ rw refused (rw d.1 refl))
            ]
      ]
]

-- A run ends in a fault, or with a server that owns what it accepted and has the connections of which
-- there are to be events yet.
abbrev pub Goes : (events : List PollEvent) → Run Server → Type 0
Goes events run =
    (run ≡ fault)
    ⊎ ((srv : Server) × (xs : List ℕ) × (run ≡ ok srv) × Owns srv xs × Reported events xs)

-- `malloc` gives 0 or an address that is not in use.
abbrev pub IsFresh : (malloc : Collection Connection → ℕ) → Type 0
IsFresh malloc =
    (c : Collection Connection) (xs : List ℕ)
    → IsValid c xs
    → ((malloc c == 0) ≡ true) ⊎ (is_new c.list (malloc c) xs ≡ true)

-- `epoll_pwait` reports connections of the list, and none of them twice in a call.
abbrev pub AllReported : List Waiting → Type 0
AllReported [] = Unit
AllReported (w ∷ rest) =
    ((events : Collection Connection → List PollEvent) (c : Collection Connection) (xs : List ℕ)
      → w.waited ≡ Server.reported events
      → IsValid c xs
      → Reported (events c) xs)
    × AllReported rest

module _ (callback : Option (Message → Bool → Bool)) (malloc : Collection Connection → ℕ)
    (fresh : IsFresh malloc) where
  pub accept_guest-Goes :
      (guest : Option Guest) (events : List PollEvent) (srv : Server) (xs : List ℕ)
      → Owns srv xs
      → Reported events xs
      → Goes events (accept_guest callback malloc guest srv)
  unfolding accept_guest server_add_connection
  accept_guest-Goes none events srv xs owns reported = inr (srv, xs, refl, owns, reported)
  accept_guest-Goes (some g) events srv xs owns reported =
      let a = malloc srv.connections in
      let next = λ (entered : Collection Connection × Bool).
        ok (record srv { connections = entered.0; accepted = srv.accepted ++ g.fd ∷ [] }) in
      elim (enter-Entered a g.epoll_ok g.host g.service g.fd srv.connections xs
        (record { valid = owns.valid; fresh = fresh srv.connections xs owns.valid })) [
          | inl wrong ↦ inl (ap (λ r. r >>= next) wrong)
          | inr (r, ys, ran, e) ↦ inr (
            record srv { connections = r.0; accepted = srv.accepted ++ g.fd ∷ [] },
            ys,
            ap (λ r. r >>= next) ran,
            record {
              valid = e.valid;
              owned = λ d.
                  omega (arith, e.owned d, owns.owned d, count-append d srv.accepted (g.fd ∷ []));
            },
            λ b. omega (arith, e.more b, reported b),
          )
        ]

  executed-Owns :
      (m : Message) (srv : Server) (xs : List ℕ)
      → Owns srv xs
      → Owns (execute_message callback malloc m srv) xs
  unfolding execute_message
  executed-Owns m srv xs owns = record { valid = owns.valid; owned = owns.owned }

  pub serve_readable-Goes :
      (a : ℕ) (arrival : Arrival) (events : List PollEvent) (srv : Server) (xs : List ℕ)
      → Owns srv xs
      → Reported (Server.readable a arrival ∷ events) xs
      → Goes events (serve_readable callback malloc a arrival srv)
  unfolding serve_readable
  serve_readable-Goes a arrival events srv xs owns reported =
      let self : (a == a) ≡ true = ground arith in
      let here : 0 < count a (a ∷ targets events) = ground (arith, self) in
      let (l, r, split) = split-count a xs (omega (arith, here, reported a)) in
      let (conn, broken) = read_connection_data arrival.read (srv.connections.entry a) in
      let kept : conn.fd ≡ (srv.connections.entry a).fd =
        read-fd arrival.read (srv.connections.entry a) in
      let whole = store-Owns a conn srv xs kept owns in
      let c = (store_connection a conn srv).connections in
      let deleted = connection_delete a c >>= λ c. ok (record srv { connections = c }) in
      let next = λ (found : Connection × Message).
        ok (execute_message callback malloc found.1 (store_connection a found.0 srv)) in
      let executed = extract_message conn arrival.memory >>= next in
      elim (Bool-cases broken) [
        | inl over ↦
            let valid = subst (IsValid c) split whole.valid in
            let (c', ran, valid', closed, entry, at) =
              delete-IsValid (λ (conn : Connection). conn.fd) c l a r valid in
            inr (
              record srv { connections = c' },
              l ++ r,
              if_true broken deleted executed over
                  ∙ ap (λ r. r >>= λ c. ok (record srv { connections = c })) ran,
              record {
                valid = valid';
                owned = λ d. omega (
                  arith,
                  whole.owned d,
                  ap (λ t. count d (fds c.entry t)) split,
                  ap (count d) closed,
                  ap (λ f. count d (fds f (l ++ r))) entry,
                  ap (count d) (fds-append c.entry l (a ∷ r)),
                  ap (count d) (fds-append c.entry l r),
                  count-append d (fds c.entry l) (fds c.entry (a ∷ r)),
                  count-append d (fds c.entry l) (fds c.entry r),
                  count-append d c.closed ((c.entry a).fd ∷ []),
                );
              },
              λ b. omega (
                arith,
                reported b,
                ap (count b) split,
                count-append b l (a ∷ r),
                count-append b l r,
              ),
            )
        | inr going ↦ elim (extract-fd conn arrival.memory) [
          | inl wrong ↦ inl (if_false broken deleted executed going ∙ ap (λ r. r >>= next) wrong)
          | inr (conn', m, ran, same) ↦
              let stored = store-Owns a conn' srv xs (same ∙ kept) owns in
              inr (
                execute_message callback malloc m (store_connection a conn' srv),
                xs,
                if_false broken deleted executed going ∙ ap (λ r. r >>= next) ran,
                executed-Owns m (store_connection a conn' srv) xs stored,
                λ b. omega (arith, reported b),
              )
        ]
      ]
