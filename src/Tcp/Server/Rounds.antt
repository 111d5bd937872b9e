-- ===== src/Tcp/Server/Rounds.antt =====
-- The loop of the server of tcp/src/tcp_process.c: what holds of it round after round, and when it ends.
use multiprocessor.Tcp.Server.Entering.{added-Serves, dropped-Serves, first_lem, dropped}
use multiprocessor.Tcp.Server.Serving.{AllRead, Promises, serve_connections-Goes}
use multiprocessor.Common.{
  if_false, if_true, Option-cases, ◌+◌, count, length, ◌<◌, suc, arith, ◌∙◌, ap, ◌>>=◌, Bool-cases,
  refl, inl, ok, inr, ◌∷◌, [], ◌==◌, ◌++◌, ℕ, List, false, ◌≡◌,
}
use multiprocessor.LinkedList
use multiprocessor.LinkedList.Rings.{count-append}
use multiprocessor.LinkedList.Refinement.{init-Holds}
use multiprocessor.Collections.{Collection, put}
use multiprocessor.Collections.Laws.{add-append, destroy-IsValid}
use multiprocessor.Tcp.{Session, Callback}
use multiprocessor.Tcp.Lines.{IsRead}
use multiprocessor.Tcp.Server.{
  Ready, Server, new_session, accept_connection, serve_connections, server_round, server_loop,
  server_init, server_destroy,
}
use multiprocessor.Tcp.Server.Service.{Serves, Goes, fds}

module _ (reciever sender : Callback) (malloc : Collection Session → ℕ)
    (promises : Promises reciever sender malloc) where
  accept_connection-Goes :
      (ready : Ready) (srv : Server) (xs : List ℕ)
      → Serves srv xs
      → (ys : List ℕ) × Goes srv.connections.list ys
          (accept_connection reciever sender malloc ready srv)
  unfolding accept_connection
  accept_connection-Goes ready srv xs serves = elim (Option-cases ready.accepted) [
    | inl nobody ↦ (
      xs,
      record { left = srv; ran = rw (accept_connection, nobody) refl; serves = serves; at = refl },
    )
    | inr (fd, somebody) ↦ elim (promises.fresh srv.connections xs serves.valid) [
      | inl no_memory ↦ (
        xs,
        record {
          left = dropped fd srv;
          ran =
              rw (accept_connection, somebody)
                (if_true (malloc srv.connections == 0) (ok (dropped fd srv)) _
                  (ground (arith, no_memory)));
          serves = dropped-Serves fd srv xs serves;
          at = refl;
        },
      )
      | inr (new, nonnull) ↦
          let a = malloc srv.connections in
          let (h, ran, valid) = add-append a (new_session fd) srv.connections xs serves.valid new in
          let c = record srv.connections {
            heap = h;
            cnt = srv.connections.cnt + 1;
            entry = put srv.connections.entry a (new_session fd);
          } in
          (
            xs ++ a ∷ [],
            record {
              left = record srv { connections = c; accepted = srv.accepted ++ fd ∷ [] };
              ran =
                  rw (accept_connection, somebody)
                    (if_false (a == 0) (ok (dropped fd srv)) _ nonnull
                      ∙ ap
                          (λ r. r >>= λ c.
                            ok (record srv { connections = c; accepted = srv.accepted ++ fd ∷ [] }))
                          ran);
              serves = added-Serves fd a srv xs h serves new valid;
              at = refl;
            },
          )
    ]
  ]

  pub server_round-Goes :
      (ready : Ready) (srv : Server) (xs : List ℕ)
      → ((fd : ℕ) → IsRead (ready.read fd))
      → Serves srv xs
      → (ys : List ℕ) × Goes srv.connections.list ys (server_round reciever sender malloc ready srv)
  unfolding server_round
  server_round-Goes ready srv xs reads serves =
      let (ys, a) = accept_connection-Goes ready srv xs serves in
      let c = a.left.connections in
      let few : length ys < suc c.cnt = omega (arith, a.serves.valid.counted) in
      let (zs, g) =
        serve_connections-Goes reciever sender malloc promises ready (suc c.cnt) a.left [] ys reads
          a.serves few in
      let k =
        λ (item : ℕ). serve_connections reciever sender malloc ready (suc c.cnt) item a.left in
      (
        zs,
        record {
          left = g.left;
          ran =
              ap
                (λ r. r >>= λ srv.
                  LinkedList.first_elem srv.connections.list srv.connections.heap >>= λ item.
                  serve_connections reciever sender malloc ready (suc srv.connections.cnt) item srv)
                a.ran
              ∙ ap (λ r. r >>= k) (first_lem c ys a.serves.valid)
              ∙ g.ran;
          serves = g.serves;
          at = g.at ∙ a.at;
        },
      )

  server_loop-Goes :
      (events : List Ready) (srv : Server) (xs : List ℕ)
      → AllRead events
      → Serves srv xs
      → (ys : List ℕ) × Goes srv.connections.list ys (server_loop reciever sender malloc events srv)
  unfolding server_loop
  server_loop-Goes [] srv xs reads serves =
      (xs, record { left = srv; ran = refl; serves = serves; at = refl })
  server_loop-Goes (ready ∷ rest) srv xs reads serves =
      let step = server_round reciever sender malloc ready srv in
      let k = server_loop reciever sender malloc rest in
      elim (Bool-cases srv.exit_flag) [
        | inl over ↦ (
          xs,
          record {
            left = srv;
            ran = if_true srv.exit_flag (ok srv) (step >>= k) over;
            serves = serves;
            at = refl;
          },
        )
        | inr going ↦
            let (ys, g) = server_round-Goes ready srv xs reads.0 serves in
            let (zs, g') = server_loop-Goes rest g.left ys reads.1 g.serves in
            (
              zs,
              record {
                left = g'.left;
                ran =
                    if_false srv.exit_flag (ok srv) (step >>= k) going
                    ∙ ap (λ r. r >>= k) g.ran
                    ∙ g'.ran;
                serves = g'.serves;
                at = g'.at ∙ g.at;
              },
            )
      ]

  -- Let the callbacks return and leave the request and the descriptor, `read` give no more bytes than it
  -- is asked for, and `malloc` give 0 or an address that is not in use. Then the server runs through any
  -- number of rounds without a fault, whatever connections come, send and close: of each that is in the
  -- list the lines that were handled, followed by what waits, are all the bytes received. Behind the
  -- loop `server_destroy` runs to its end, and every socket that was accepted has been closed as often
  -- as it was accepted.
  pub server_run :
      (list : ℕ) (events : List Ready)
      → (list == 0) ≡ false
      → AllRead events
      → (srv : Server) × (xs : List ℕ) × (end : Server) × ((server_init list
            >>= server_loop reciever sender malloc events)
          ≡ ok srv)
        × Serves srv xs
        × (server_destroy srv ≡ ok end)
        × ((d : ℕ) → count d end.connections.closed ≡ count d end.accepted)
  unfolding server_init server_destroy
  server_run list events nonnull reads =
      let k =
        init-Holds (record { next = λ x. 0; prev = λ x. 0 }) list nonnull
          (λ x gone. (refl, refl)) in
      let start : Server = record {
        connections = record {
          list = list;
          heap = k.heap;
          cnt = 0;
          entry = λ x. new_session 0;
          closed = [];
        };
        exit_flag = false;
        accepted = [];
      } in
      let serves : Serves start [] = record {
        valid = record { holds = k.holds; counted = refl };
        each = tt;
        owned = λ d. refl;
      } in
      let (xs, g) = server_loop-Goes events start [] reads serves in
      let srv = g.left in
      let (c, ran, done, closed) =
        destroy-IsValid (λ (s : Session). s.conn.fd) (suc srv.connections.cnt) srv.connections xs
          g.serves.valid (omega (arith, g.serves.valid.counted)) in
      (
        srv,
        xs,
        record srv { connections = c },
        rw k.ran g.ran,
        g.serves,
        ap (λ r. r >>= λ c. ok (record srv { connections = c })) ran,
        λ d. omega (
          arith,
          g.serves.owned d,
          ap (count d) closed,
          count-append d srv.connections.closed (fds srv.connections.entry xs),
        ),
      )
