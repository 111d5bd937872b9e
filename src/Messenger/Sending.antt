-- ===== src/Messenger/Sending.antt =====
-- Where the client of messenger/src/messenger.c sends its commands, and what a connection that epoll
-- does not take does.
use mathlib.Core.Bool.{false≢true}
use multiprocessor.Common.{
  take, same_text, none, Option-cases, inl, Bool-cases, inr, replicate, ap, Bool, ◌+◌, ◌>>=◌, ◌∷◌,
  false, arith, if◌then◌else◌, ◌∙◌, ◌==◌, [], ◌++◌, ltb, refl, ℕ, ◌&&◌, some, fault, ◌<◌, ◌⊎◌, ok,
  true, List, ◌≡◌, Option, length,
}
use multiprocessor.Collections.{Collection, add}
use multiprocessor.Collections.Laws.{IsValid, add-IsValid, delete-IsValid}
use multiprocessor.Collections.Search.{get-first, first}
use multiprocessor.LinkedList.Sequence.{is_new}
use multiprocessor.Messenger
use multiprocessor.Messenger.{Connection, Message, MsgCmd, max_msg_len}
use multiprocessor.Messenger.Parse.{get_connect_information}
use multiprocessor.Messenger.Connect.{
  Attempt, first_connected, client_add_connection, ni_maxserv, ni_maxhost, connection_get,
  server_add_connection, enter, Reach, connection_delete,
}
use multiprocessor.Messenger.Client.{
  reconnect, Client, client_execute_callback, execute_by, send_command, is_sent,
}

-- The first connection of a list to this host and port.
abbrev pub to_host : (host port : List ℕ) → Collection Connection → List ℕ → Option ℕ
to_host host port c xs =
    first (λ conn. same_text conn.service port && same_text conn.host host) c.entry xs

sent_lem :
    (fuel : ℕ) (reach : Reach) (cmd : MsgCmd) (msg : Message) (cli : Client)
    → is_sent cmd ≡ true
    → execute_by fuel reach cmd msg cli ≡ send_command fuel reach msg cli
unfolding execute_by
sent_lem fuel reach Messenger.stop msg cli e = refl
sent_lem fuel reach Messenger.start msg cli e = refl
sent_lem fuel reach Messenger.set_values msg cli e = refl
sent_lem fuel reach Messenger.get_values msg cli e = refl
sent_lem fuel reach Messenger.quit msg cli e = absurd (false≢true e)
sent_lem fuel reach Messenger.connect msg cli e = absurd (false≢true e)
sent_lem fuel reach Messenger.status msg cli e = absurd (false≢true e)
sent_lem fuel reach Messenger.config msg cli e = absurd (false≢true e)

-- A command for a server, on a client whose list of connections is whole.
pub record Commands (fuel : ℕ) (msg : Message) (cli : Client) (xs host port : List ℕ) : Type 0 where
  pub valid : IsValid cli.connections xs
  pub enough : length xs < fuel
  pub is_sent : is_sent msg.cmd ≡ true
  pub information : get_connect_information msg ≡ ok (some (host, port))

search_lem :
    (fuel : ℕ) (msg : Message) (cli : Client) (xs host port : List ℕ)
    → Commands fuel msg cli xs host port
    → connection_get fuel host port cli.connections ≡ ok (to_host host port cli.connections xs)
unfolding connection_get
search_lem fuel msg cli xs host port c = get-first _ fuel cli.connections xs c.valid c.enough

-- A command of a text that names a host and a port is written, its `msg_len` bytes, to the descriptor
-- of the first connection of the list with this host and port, where there is one, and nothing else
-- changes.
pub execute-write :
    (fuel : ℕ) (reach : Reach) (msg : Message) (cli : Client) (xs host port : List ℕ) (address : ℕ)
    → Commands fuel msg cli xs host port
    → to_host host port cli.connections xs ≡ some address
    → client_execute_callback fuel reach msg cli
      ≡ ok (record cli {
        sent =
            cli.sent ++ ((cli.connections.entry address).fd, take msg.msg_len msg.msg_string) ∷ [];
      })
unfolding client_execute_callback send_command
execute-write fuel reach msg cli xs host port address c found =
    let searched = search_lem fuel msg cli xs host port c in
    rw
      (
        client_execute_callback,
        sent_lem fuel reach msg.cmd msg cli c.is_sent,
        send_command,
        c.information,
        searched,
        found,
      )
      refl

-- Memory for a connection: none, or at an address that the list does not have.
pub record Memory (address : ℕ) (c : Collection Connection) (xs : List ℕ) : Type 0 where
  pub valid : IsValid c xs
  pub fresh : ((address == 0) ≡ true) ⊎ (is_new c.list address xs ≡ true)

pub new-nonnull : (list a : ℕ) (xs : List ℕ) → is_new list a xs ≡ true → (a == 0) ≡ false
new-nonnull list a xs new = ground (arith, new)

abbrev pub blank_connection : (host service : List ℕ) → ℕ → Connection
blank_connection host service fd = record {
  host = host;
  service = service;
  fd = fd;
  offset = 0;
  buffer = replicate (max_msg_len + 1) 0;
}

no_memory_lem :
    (host service : List ℕ) (fd : ℕ) (c : Collection Connection)
    → enter 0 true host service fd c ≡ ok (record c { closed = c.closed ++ fd ∷ [] }, false)
unfolding enter
no_memory_lem host service fd c = refl

pub enter_added :
    (address : ℕ) (epoll_ok : Bool) (host service : List ℕ) (fd : ℕ) (c c' : Collection Connection)
    → (address == 0) ≡ false
    → (ltb (length host) ni_maxhost && ltb (length service) ni_maxserv) ≡ true
    → add address (blank_connection host service fd) c ≡ ok c'
    → enter address epoll_ok host service fd c
      ≡ (if epoll_ok then ok (c', true) else connection_delete address c' >>= λ d. fault)
unfolding enter
enter_added address epoll_ok host service fd c c' nonnull short ran = rw (nonnull, short, ran) refl

-- A connection for a new client, with a host and a service that fit. Without memory the descriptor is
-- closed and the list stays. With memory, and where epoll takes the descriptor, the connection is the
-- last one of the list. Where epoll does not take it, the connection is freed twice: a fault.
pub server_add_connection-branches :
    (address fd : ℕ) (host service : List ℕ) (c : Collection Connection) (xs : List ℕ)
    → IsValid c xs
    → (ltb (length host) ni_maxhost && ltb (length service) ni_maxserv) ≡ true
    → is_new c.list address xs ≡ true
    → (server_add_connection 0 true host service fd c
        ≡ ok (record c { closed = c.closed ++ fd ∷ [] }, false))
      × ((c' : Collection Connection) × (server_add_connection address true host service fd c
            ≡ ok (c', true))
          × IsValid c' (xs ++ address ∷ [])
          × ((c'.entry address).fd ≡ fd)
          × (c'.closed ≡ c.closed))
      × (server_add_connection address false host service fd c ≡ fault)
unfolding server_add_connection
server_add_connection-branches address fd host service c xs valid short new =
    let (c', ran, valid', value, closed) =
      add-IsValid address (blank_connection host service fd) c xs valid new in
    let nonnull = new-nonnull c.list address xs new in
    let d = delete-IsValid (λ conn. conn.fd) c' xs address [] valid' in
    (
      no_memory_lem host service fd c,
      (
        c',
        enter_added address true host service fd c c' nonnull short ran,
        valid',
        ap (λ conn. conn.fd) value,
        closed,
      ),
      enter_added address false host service fd c c' nonnull short ran ∙ rw d.1 refl,
    )

enter-cases :
    (address : ℕ) (epoll_ok : Bool) (host service : List ℕ) (fd : ℕ) (c : Collection Connection)
    (xs : List ℕ)
    → Memory address c xs
    → (enter address epoll_ok host service fd c ≡ fault)
      ⊎ ((r : Collection Connection × Bool) × (enter address epoll_ok host service fd c ≡ ok r))
unfolding enter
enter-cases address epoll_ok host service fd c xs memory = elim memory.fresh [
  | inl missing ↦ inr ((record c { closed = c.closed ++ fd ∷ [] }, false), rw (enter, missing) refl)
  | inr new ↦
      let nonnull = new-nonnull c.list address xs new in
      elim (Bool-cases (ltb (length host) ni_maxhost && ltb (length service) ni_maxserv)) [
        | inr long ↦ inl (rw (enter, nonnull, long) refl)
        | inl short ↦
            let (c', ran, valid', _, _) =
              add-IsValid address (blank_connection host service fd) c xs memory.valid new in
            let d = delete-IsValid (λ conn. conn.fd) c' xs address [] valid' in
            let step = enter_added address epoll_ok host service fd c c' nonnull short ran in
            elim (Bool-cases epoll_ok) [
              | inl taken ↦ inr ((c', true), step ∙ rw taken refl)
              | inr refused ↦ inl (step ∙ rw refused (rw d.1 refl))
            ]
      ]
]

abbrev closing : List Attempt → Collection Connection → Collection Connection
closing attempts c = record c { closed = c.closed ++ (first_connected attempts).1 }

-- A connection that could be made is no use: its descriptor is read through `NULL`.
reconnect-cases :
    (reach : Reach) (host port : List ℕ) (cli : Client) (xs : List ℕ)
    → Memory reach.address cli.connections xs
    → (reconnect reach host port cli ≡ fault)
      ⊎ ((cli' : Client) × (reconnect reach host port cli ≡ ok cli') × (cli'.sent ≡ cli.sent))
unfolding reconnect client_add_connection
reconnect-cases reach host port cli xs memory = elim (Option-cases reach.resolved) [
  | inl unresolved ↦ inr (
    record cli { connections = cli.connections },
    rw (reconnect, client_add_connection, unresolved) refl,
    refl,
  )
  | inr (attempts, resolved) ↦
      let c = closing attempts cli.connections in
      let memory' : Memory reach.address c xs = record {
        valid = record { holds = memory.valid.holds; counted = memory.valid.counted };
        fresh = memory.fresh;
      } in
      elim (Option-cases (first_connected attempts).0) [
        | inl none_connects ↦ inr (
          record cli { connections = c },
          rw (reconnect, client_add_connection, resolved, none_connects) refl,
          refl,
        )
        | inr (fd, connects) ↦
            elim (enter-cases reach.address reach.epoll_ok host port fd c xs memory') [
              | inl faulty ↦
                  inl (rw (reconnect, client_add_connection, resolved, connects, faulty) refl)
              | inr ((c', true), entered) ↦
                  inl (rw (reconnect, client_add_connection, resolved, connects, entered) refl)
              | inr ((c', false), entered) ↦
                  inl (rw (reconnect, client_add_connection, resolved, connects, entered) refl)
            ]
      ]
]

-- A command of a text that names a host and a port to which the client has no connection is never
-- sent: the code ends with a fault, or goes on with what it had sent before, whatever it can reach.
pub execute-unsent :
    (fuel : ℕ) (reach : Reach) (msg : Message) (cli : Client) (xs host port : List ℕ)
    → Commands fuel msg cli xs host port
    → to_host host port cli.connections xs ≡ none
    → Memory reach.address cli.connections xs
    → (client_execute_callback fuel reach msg cli ≡ fault)
      ⊎ ((cli' : Client) × (client_execute_callback fuel reach msg cli ≡ ok cli')
          × (cli'.sent ≡ cli.sent))
unfolding client_execute_callback send_command
execute-unsent fuel reach msg cli xs host port c missing memory =
    let searched = search_lem fuel msg cli xs host port c in
    let step : client_execute_callback fuel reach msg cli ≡ reconnect reach host port cli =
      rw
        (
          client_execute_callback,
          sent_lem fuel reach msg.cmd msg cli c.is_sent,
          send_command,
          c.information,
          searched,
          missing,
        )
        refl in
    elim (reconnect-cases reach host port cli xs memory) [
      | inl faulty ↦ inl (step ∙ faulty)
      | inr (cli', ran, same) ↦ inr (cli', step ∙ ran, same)
    ]
