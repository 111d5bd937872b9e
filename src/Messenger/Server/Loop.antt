-- ===== src/Messenger/Server/Loop.antt =====
-- The loop of the server of messenger/src/messenger.c, from `server_create` to `server_destroy`.
use multiprocessor.Common.{
  if_false, if_true, suc, true, ◌==◌, Bool-cases, false, count, blocked, if◌then◌else◌, arith, Run,
  ◌∙◌, inl, ℕ, ◌>>=◌, Bool, [], refl, ◌≡◌, ap, fault, Option, inr, ◌⊎◌, ◌∷◌, List, ok,
}
use multiprocessor.Messenger.{Message, Connection}
use multiprocessor.Collections.{Collection}
use multiprocessor.Collections.Laws.{destroy-IsValid}
use multiprocessor.LinkedList.Rings.{count-append}
use multiprocessor.LinkedList.Refinement.{init-Holds}
use multiprocessor.Messenger.Server
use multiprocessor.Messenger.Server.{
  after_wait, Server, PollEvent, Waiting, Waited, handle_event, handle_events, process_loop,
  server_create, server_destroy,
}
use multiprocessor.Messenger.Server.Owning.{Owns, Reported, fds}
use multiprocessor.Messenger.Server.Events.{
  Goes, IsFresh, AllReported, accept_guest-Goes, serve_readable-Goes,
}

-- What the loop comes to: a fault, or a server that owns what it accepted, and whether it was left.
abbrev Lands : Run (Server × Bool) → Type 0
Lands run =
    (run ≡ fault)
    ⊎ ((srv : Server) × (left : Bool) × (xs : List ℕ) × (run ≡ ok (srv, left)) × Owns srv xs)

-- Behind the loop the server is taken down; before its end the call waits.
server_destroy-cases :
    (srv : Server) (left : Bool) (xs : List ℕ)
    → Owns srv xs
    → ((left ≡ true)
        × (end : Server) × (server_destroy (srv, left) ≡ ok end)
        × ((d : ℕ) → count d end.connections.closed ≡ count d end.accepted))
      ⊎ ((left ≡ false) × (server_destroy (srv, left) ≡ blocked))
unfolding server_destroy
server_destroy-cases srv left xs owns =
    let (c, ran, done, closed) =
      destroy-IsValid (λ (conn : Connection). conn.fd) (suc srv.connections.cnt) srv.connections xs
        owns.valid (omega (arith, owns.valid.counted)) in
    let next = λ (c : Collection Connection).
      if left then ok (record srv { connections = c; exit_flag = true }) else blocked in
    let step : server_destroy (srv, left) ≡ next c = ap (λ r. r >>= next) ran in
    elim (Bool-cases left) [
      | inl over ↦ inl (
        over,
        record srv { connections = c; exit_flag = true },
        step ∙ if_true left (ok (record srv { connections = c; exit_flag = true })) blocked over,
        λ d. omega (
          arith,
          owns.owned d,
          ap (count d) closed,
          count-append d srv.connections.closed (fds srv.connections.entry xs),
        ),
      )
      | inr waiting ↦ inr (
        waiting,
        step
            ∙ if_false left (ok (record srv { connections = c; exit_flag = true })) blocked waiting,
      )
    ]

module _ (callback : Option (Message → Bool → Bool)) (malloc : Collection Connection → ℕ)
    (fresh : IsFresh malloc) where
  handle_event-Goes :
      (e : PollEvent) (events : List PollEvent) (srv : Server) (xs : List ℕ)
      → Owns srv xs
      → Reported (e ∷ events) xs
      → Goes events (handle_event callback malloc e srv)
  handle_event-Goes (Server.incoming guest) events srv xs owns reported =
      accept_guest-Goes callback malloc fresh guest events srv xs owns reported
  handle_event-Goes (Server.readable a arrival) events srv xs owns reported =
      serve_readable-Goes callback malloc fresh a arrival events srv xs owns reported

  pub handle_events-Goes :
      (events : List PollEvent) (srv : Server) (xs : List ℕ)
      → Owns srv xs
      → Reported events xs
      → Goes [] (handle_events callback malloc events srv)
  handle_events-Goes [] srv xs owns reported = inr (srv, xs, refl, owns, reported)
  handle_events-Goes (e ∷ events) srv xs owns reported =
      let k = handle_events callback malloc events in
      elim (handle_event-Goes e events srv xs owns reported) [
        | inl wrong ↦ inl (ap (λ r. r >>= k) wrong)
        | inr (srv', ys, ran, owns', reported') ↦
            elim (handle_events-Goes events srv' ys owns' reported') [
              | inl wrong ↦ inl (ap (λ r. r >>= k) ran ∙ wrong)
              | inr (end, zs, ran', kept, none_left) ↦
                  inr (end, zs, ap (λ r. r >>= k) ran ∙ ran', kept, none_left)
            ]
      ]

  after_wait-Lands :
      (loop : Server → Run (Server × Bool)) (waited : Waited) (srv : Server) (xs : List ℕ)
      → ((srv : Server) (xs : List ℕ) → Owns srv xs → Lands (loop srv))
      → ((events : Collection Connection → List PollEvent)
          → waited ≡ Server.reported events
          → Reported (events srv.connections) xs)
      → Owns srv xs
      → Lands (after_wait callback malloc loop waited srv)
  after_wait-Lands loop Server.interrupted srv xs loops reported owns = loops srv xs owns
  after_wait-Lands loop Server.failed srv xs loops reported owns = inr (srv, true, xs, refl, owns)
  after_wait-Lands loop (Server.reported events) srv xs loops reported owns =
      elim (handle_events-Goes (events srv.connections) srv xs owns (reported events refl)) [
        | inl wrong ↦ inl (ap (λ r. r >>= loop) wrong)
        | inr (srv', ys, ran, owns', _) ↦ elim (loops srv' ys owns') [
          | inl wrong ↦ inl (ap (λ r. r >>= loop) ran ∙ wrong)
          | inr (end, left, zs, ran', kept) ↦
              inr (end, left, zs, ap (λ r. r >>= loop) ran ∙ ran', kept)
        ]
      ]

  process_loop-Lands :
      (waits : List Waiting) (srv : Server) (xs : List ℕ)
      → AllReported waits
      → Owns srv xs
      → Lands (process_loop callback malloc waits srv)
  unfolding process_loop
  process_loop-Lands [] srv xs reported owns = inr (srv, srv.exit_flag, xs, refl, owns)
  process_loop-Lands (w ∷ rest) srv xs reported owns =
      let going = after_wait callback malloc (process_loop callback malloc rest) w.waited srv in
      let signalled : Run (Server × Bool) = ok (record srv { exit_flag = true }, true) in
      let test = if w.signalled then signalled else going in
      elim (Bool-cases srv.exit_flag) [
        | inl over ↦ inr (srv, true, xs, if_true srv.exit_flag (ok (srv, true)) test over, owns)
        | inr open_yet ↦
            let here = if_false srv.exit_flag (ok (srv, true)) test open_yet in
            elim (Bool-cases w.signalled) [
              | inl over ↦ inr (
                record srv { exit_flag = true },
                true,
                xs,
                here ∙ if_true w.signalled signalled going over,
                record { valid = owns.valid; owned = owns.owned },
              )
              | inr quiet ↦
                  let step = here ∙ if_false w.signalled signalled going quiet in
                  elim (after_wait-Lands (process_loop callback malloc rest) w.waited srv xs
                    (λ srv xs owns. process_loop-Lands rest srv xs reported.1 owns)
                    (λ events e. reported.0 events srv.connections xs e owns.valid) owns) [
                      | inl wrong ↦ inl (step ∙ wrong)
                      | inr (end, left, ys, ran, kept) ↦ inr (end, left, ys, step ∙ ran, kept)
                    ]
            ]
      ]

  -- Let `malloc` give 0 or an address that is not in use, and each call of `epoll_pwait` report
  -- connections of the list, none of them twice. Then the server, from `server_create` on, ends in a
  -- fault, or its loop runs through the calls, whatever comes, is sent, fails and is broken off, and every
  -- descriptor that was accepted is that of a connection in the list, or closed. If the loop was left,
  -- `server_destroy` returns, and every descriptor has been closed as often as it was accepted. If it was
  -- not, and nothing more comes, `server_destroy` does not return.
  pub process_loop-Owns :
      (list : ℕ) (waits : List Waiting)
      → (list == 0) ≡ false
      → AllReported waits
      → ((server_create list >>= process_loop callback malloc waits) ≡ fault)
        ⊎ ((srv : Server) × (left : Bool) × (xs : List ℕ) × ((server_create list
                >>= process_loop callback malloc waits)
              ≡ ok (srv, left))
            × Owns srv xs
            × (((left ≡ true)
                  × (end : Server) × (server_destroy (srv, left) ≡ ok end)
                  × ((d : ℕ) → count d end.connections.closed ≡ count d end.accepted))
                ⊎ ((left ≡ false) × (server_destroy (srv, left) ≡ blocked))))
  unfolding server_create server_destroy
  process_loop-Owns list waits nonnull reported =
      let k =
        init-Holds (record { next = λ x. 0; prev = λ x. 0 }) list nonnull
          (λ x gone. (refl, refl)) in
      let start : Server = record {
        connections = record {
          list = list;
          heap = k.heap;
          cnt = 0;
          entry = λ x. record { host = []; service = []; fd = 0; offset = 0; buffer = [] };
          closed = [];
        };
        exit_flag = false;
        accepted = [];
        executed = [];
      } in
      let owns : Owns start [] = record {
        valid = record { holds = k.holds; counted = refl };
        owned = λ d. refl;
      } in
      elim (process_loop-Lands waits start [] reported owns) [
        | inl wrong ↦ inl (rw k.ran wrong)
        | inr (srv, left, xs, ran, kept) ↦
            inr (srv, left, xs, rw k.ran ran, kept, server_destroy-cases srv left xs kept)
      ]
