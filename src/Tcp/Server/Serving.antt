-- ===== src/Tcp/Server/Serving.antt =====
-- The loop over the connections that have something to read, in tcp/src/tcp_process.c.
use multiprocessor.Tcp.Server.Entering.{stored-IsServed}
use mathlib.Core.Path.{subst}
use multiprocessor.Common.{
  or_left, or_right, if_false, or_false, if_true, ◌||◌, length, ◌<◌, zero, suc, sym, arith, ◌∙◌, ap,
  ◌>>=◌, Bool-cases, refl, if◌then◌else◌, inl, ok, inr, true, ◌∷◌, [], ◌⊎◌, ◌==◌, ◌++◌, ℕ, List,
  false, ◌≡◌,
}
use mathlib.Core.Bool.{not}
use mathlib.Core.List.{append_assoc}
use multiprocessor.LinkedList
use multiprocessor.LinkedList.Sequence.{is_new}
use multiprocessor.Collections.{Collection}
use multiprocessor.Collections.Laws.{add-append, destroy-IsValid}
use multiprocessor.Collections.Laws
use multiprocessor.Tcp.{Session, Callback}
use multiprocessor.Tcp.Lines.{Keeps, IsRead, round-IsValid}
use multiprocessor.Tcp.Server.{
  Ready, Server, session_at, store_session, connection_delete, serve_connection, serve_connections,
}
use multiprocessor.Tcp.Server.Descriptors.{KeepsFd, round-fd}
use multiprocessor.Tcp.Server.Service.{
  Serves, IsServed, Goes, Each-split, once_lem, next_lem, head_of, store-Others, Others-Serves,
  delete-Goes,
}

-- What the callbacks, `read` and `malloc` promise: a callback returns and leaves the request and the
-- descriptor; `malloc` gives 0 or an address that is not in use.
pub record Promises (reciever sender : Callback) (malloc : Collection Session → ℕ) : Type 0 where
  pub receives : Keeps reciever
  pub sends : Keeps sender
  pub receives_fd : KeepsFd reciever
  pub sends_fd : KeepsFd sender
  pub fresh :
      (c : Collection Session) (xs : List ℕ)
      → Laws.IsValid c xs
      → (malloc c ≡ 0) ⊎ ((is_new c.list (malloc c) xs ≡ true) × (malloc c == 0 ≡ false))

abbrev pub AllRead : List Ready → Type 0
AllRead [] = Unit
AllRead (ready ∷ rest) = ((fd : ℕ) → IsRead (ready.read fd)) × AllRead rest

module _ (reciever sender : Callback) (malloc : Collection Session → ℕ)
    (promises : Promises reciever sender malloc) where
  serve_connection-Goes :
      (ready : Ready) (srv : Server) (l : List ℕ) (x : ℕ) (r : List ℕ)
      → ((fd : ℕ) → IsRead (ready.read fd))
      → Serves srv (l ++ x ∷ r)
      → Goes srv.connections.list (l ++ x ∷ r) (serve_connection reciever sender malloc ready x srv)
        ⊎ Goes srv.connections.list (l ++ r) (serve_connection reciever sender malloc ready x srv)
  unfolding serve_connection
  serve_connection-Goes ready srv l x r reads serves =
      let s = session_at x srv in
      let mine = (Each-split IsServed srv.connections.entry l (x ∷ r) serves.each).1.0 in
      let read = ready.read s.conn.fd in
      let (s', ran, valid) =
        round-IsValid reciever sender read s promises.receives promises.sends (reads s.conn.fd)
          (record {
            size = mine.valid.size;
            used = mine.valid.used;
            whole = mine.valid.whole;
            single = mine.valid.single;
          }) in
      let fd =
        round-fd reciever sender read s s' promises.receives promises.sends promises.receives_fd
          promises.sends_fd ran in
      let others = store-Others srv l x r s' serves fd in
      let next = λ (s' : Session).
        if s'.is_open
        then ok (store_session x s' srv)
        else connection_delete x (store_session x s' srv) in
      let went : serve_connection reciever sender malloc ready x srv ≡ next s' =
        ap (λ r. r >>= next) ran in
      elim (Bool-cases s'.is_open) [
        | inl open_yet ↦ inl (record {
          left = store_session x s' srv;
          ran =
              went
              ∙ if_true s'.is_open (ok (store_session x s' srv))
                  (connection_delete x (store_session x s' srv)) open_yet;
          serves =
              Others-Serves (store_session x s' srv) l x r others
                (stored-IsServed srv x s' (record { valid = valid; is_open = open_yet }));
          at = refl;
        })
        | inr over ↦
            let g = delete-Goes (store_session x s' srv) l x r others in
            inr (record {
              left = g.left;
              ran =
                  went
                  ∙ if_false s'.is_open (ok (store_session x s' srv))
                      (connection_delete x (store_session x s' srv)) over
                  ∙ g.ran;
              serves = g.serves;
              at = g.at;
            })
      ]

  -- One step of the loop over the connections.
  serve_next :
      (ready : Ready) (fuel : ℕ) (srv : Server) (l : List ℕ) (x : ℕ) (r : List ℕ)
      → Laws.IsValid srv.connections (l ++ x ∷ r)
      → srv.exit_flag ≡ false
      → serve_connections reciever sender malloc ready (suc fuel) x srv ≡ (
          (if ready.is_set (srv.connections.entry x).conn.fd
            then serve_connection reciever sender malloc ready x srv
            else ok srv)
          >>= serve_connections reciever sender malloc ready fuel (head_of srv.connections.list r))
  unfolding serve_connections
  serve_next ready fuel srv l x r valid going =
      let o = once_lem srv.connections l x r valid in
      let k = λ (next : ℕ).
        (if ready.is_set (srv.connections.entry x).conn.fd
          then serve_connection reciever sender malloc ready x srv
          else ok srv)
        >>= serve_connections reciever sender malloc ready fuel next in
      let goes_on : (srv.exit_flag || not (LinkedList.is_valid_elem srv.connections.list x))
          ≡ false =
        or_false srv.exit_flag (x == srv.connections.list) going o.inside in
      if_false (srv.exit_flag || not (LinkedList.is_valid_elem srv.connections.list x)) (ok srv)
        (LinkedList.load_next srv.connections.heap x >>= k) goes_on
      ∙ ap (λ r. r >>= k) (next_lem srv.connections l x r valid)

  serve_end :
      (ready : Ready) (fuel : ℕ) (srv : Server)
      → serve_connections reciever sender malloc ready (suc fuel) srv.connections.list srv ≡ ok srv
  unfolding serve_connections
  serve_end ready fuel srv =
      let list = srv.connections.list in
      let self : (list == list) ≡ true = ground arith in
      if_true (srv.exit_flag || not (LinkedList.is_valid_elem list list)) (ok srv) _
        (or_right srv.exit_flag (list == list) self)

  serve_over :
      (ready : Ready) (fuel item : ℕ) (srv : Server)
      → srv.exit_flag ≡ true
      → serve_connections reciever sender malloc ready (suc fuel) item srv ≡ ok srv
  unfolding serve_connections
  serve_over ready fuel item srv over =
      if_true (srv.exit_flag || not (LinkedList.is_valid_elem srv.connections.list item)) (ok srv) _
        (or_left srv.exit_flag (not (LinkedList.is_valid_elem srv.connections.list item)) over)

  pub serve_connections-Goes :
      (ready : Ready) (fuel : ℕ) (srv : Server) (l r : List ℕ)
      → ((fd : ℕ) → IsRead (ready.read fd))
      → Serves srv (l ++ r)
      → length r < fuel
      → (xs : List ℕ) × Goes srv.connections.list xs
          (serve_connections reciever sender malloc ready fuel (head_of srv.connections.list r) srv)
  serve_connections-Goes ready zero srv l r reads serves enough = absurd (omega (arith, enough))
  serve_connections-Goes ready (suc fuel) srv l [] reads serves enough =
      (l ++ [], record { left = srv; ran = serve_end ready fuel srv; serves = serves; at = refl })
  serve_connections-Goes ready (suc fuel) srv l (x ∷ r) reads serves enough =
      elim (Bool-cases srv.exit_flag) [
        | inl over ↦ (
          l ++ x ∷ r,
          record { left = srv; ran = serve_over ready fuel x srv over; serves = serves; at = refl },
        )
        | inr going ↦
            let step = serve_next ready fuel srv l x r serves.valid going in
            let k =
              serve_connections reciever sender malloc ready fuel
                (head_of srv.connections.list r) in
            let few : length r < fuel = omega (arith, enough) in
            let test = ready.is_set (srv.connections.entry x).conn.fd in
            let served = serve_connection reciever sender malloc ready x srv in
            elim (Bool-cases test) [
              | inr unset ↦
                  let (xs, g) =
                    serve_connections-Goes ready fuel srv (l ++ x ∷ []) r reads
                      (subst (Serves srv) (sym (append_assoc l (x ∷ []) r)) serves) few in
                  (
                    xs,
                    record {
                      left = g.left;
                      ran = step ∙ ap (λ r. r >>= k) (if_false test served (ok srv) unset) ∙ g.ran;
                      serves = g.serves;
                      at = g.at;
                    },
                  )
              | inl is_set ↦ elim (serve_connection-Goes ready srv l x r reads serves) [
                | inl kept ↦
                    let (xs, g) =
                      serve_connections-Goes ready fuel kept.left (l ++ x ∷ []) r reads
                        (subst (Serves kept.left) (sym (append_assoc l (x ∷ []) r)) kept.serves)
                        few in
                    (
                      xs,
                      record {
                        left = g.left;
                        ran =
                            step
                            ∙ ap (λ r. r >>= k) (if_true test served (ok srv) is_set ∙ kept.ran)
                            ∙ ap
                                (λ n.
                                  serve_connections reciever sender malloc ready fuel (head_of n r)
                                    kept.left)
                                (sym kept.at)
                            ∙ g.ran;
                        serves = g.serves;
                        at = g.at ∙ kept.at;
                      },
                    )
                | inr gone ↦
                    let (xs, g) =
                      serve_connections-Goes ready fuel gone.left l r reads gone.serves few in
                    (
                      xs,
                      record {
                        left = g.left;
                        ran =
                            step
                            ∙ ap (λ r. r >>= k) (if_true test served (ok srv) is_set ∙ gone.ran)
                            ∙ ap
                                (λ n.
                                  serve_connections reciever sender malloc ready fuel (head_of n r)
                                    gone.left)
                                (sym gone.at)
                            ∙ g.ran;
                        serves = g.serves;
                        at = g.at ∙ gone.at;
                      },
                    )
              ]
            ]
      ]
