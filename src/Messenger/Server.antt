-- ===== src/Messenger/Server.antt =====
-- The server of messenger/src/messenger.c: `tcp_server_process`, which sets up its socket and then serves
-- what `epoll_pwait` reports, and `server_execute_callback`.
use mathlib.Core.Bool.{not}
use multiprocessor.Common.{
  suc, blocked, some, ◌∷◌, List, ◌++◌, ok, Bool, none, ℕ, true, false, if◌then◌else◌, [], Run,
  ◌>>=◌, ◌&&◌, Option,
}
use multiprocessor.Messenger
use multiprocessor.Messenger.{MsgCmd, Message, Connection}
use multiprocessor.Messenger.Connect.{server_add_connection, connection_delete}
use multiprocessor.Messenger.Receive.{Arrival, read_connection_data, extract_message}
use multiprocessor.Collections
use multiprocessor.LinkedList
use multiprocessor.Collections.{Collection}
pub mod Owning
pub mod Events
pub mod Loop
mod Tests

-- One address that `getaddrinfo` found: the socket, if it could be made, and what `setsockopt` and
-- `bind` answer.
pub record Endpoint : Type 0 where
  pub socket : Option ℕ
  pub options_set : Bool
  pub bound : Bool

-- What the loop over the addresses comes to: whether it was left by a `break`, `listen_fd` (`none` for
-- -1), the sockets that were made, and those that were closed.
pub record ListenerSearch : Type 0 where
  pub broke : Bool
  pub listen_fd : Option ℕ
  pub made : List ℕ
  pub closed : List ℕ

-- The loop, with the `listen_fd` of the round before. A socket that cannot be bound stays open.
unfoldable pub find_place : Option ℕ → List Endpoint → ListenerSearch
find_place last [] = record { broke = false; listen_fd = last; made = []; closed = [] }
find_place last (a ∷ places) =
    let later = find_place a.socket places in
    elim a.socket [
      | none ↦ later
      | some fd ↦
          if not a.options_set
          then record { broke = true; listen_fd = some fd; made = fd ∷ []; closed = fd ∷ [] }
          else if a.bound
          then record { broke = true; listen_fd = some fd; made = fd ∷ []; closed = [] }
          else record later { made = fd ∷ later.made }
    ]

abbrev pub listed : Option ℕ → List ℕ
listed none = []
listed (some fd) = fd ∷ []

-- How the thread starts: whether it goes on to its loop, and the descriptors made and closed.
pub record SetUp : Type 0 where
  pub goes_on : Option ℕ
  pub made : List ℕ
  pub closed : List ℕ

-- `tcp_server_process` up to its loop: what `epoll_create1` and `getaddrinfo` give, and the answers of
-- `listen` and of `epoll_ctl`.
unfoldable pub start_process :
    (epoll : Option ℕ) (resolved : Option (List Endpoint)) (listens added : Bool) → SetUp
unfolding find_place
start_process none resolved listens added = record { goes_on = none; made = []; closed = [] }
start_process (some epoll_fd) none listens added = record {
  goes_on = none;
  made = epoll_fd ∷ [];
  closed = epoll_fd ∷ [];
}
start_process (some epoll_fd) (some places) listens added =
    let found = find_place none places in
    let made = epoll_fd ∷ found.made in
    let gives_up : SetUp = record {
      goes_on = none;
      made = made;
      closed = found.closed ++ listed found.listen_fd ++ epoll_fd ∷ [];
    } in
    if found.broke && listens && added
    then record { goes_on = found.listen_fd; made = made; closed = found.closed }
    else gives_up

-- What `accept` and `getnameinfo` give: the descriptor, what is left in `host` and `service`, and the
-- answer of `epoll_ctl` for it.
pub record Guest : Type 0 where
  pub fd : ℕ
  pub host : List ℕ
  pub service : List ℕ
  pub epoll_ok : Bool

-- An event of `epoll_pwait`: of the server's socket, or of the connection at an address.
pub data PollEvent : Type 0 where
  incoming : Option Guest → PollEvent
  readable : (address : ℕ) → Arrival → PollEvent

-- What `epoll_pwait` gives: EAGAIN or EINTR, another error, or events of the connections there are.
pub data Waited : Type 0 where
  interrupted : Waited
  failed : Waited
  reported : (Collection Connection → List PollEvent) → Waited

-- A call of `epoll_pwait`, and whether another thread has set the flag meanwhile.
pub record Waiting : Type 0 where
  pub waited : Waited
  pub signalled : Bool

-- `struct server`, the descriptors that were accepted, and the messages that went to the callback.
pub record Server : Type 0 where
  pub connections : Collection Connection
  pub exit_flag : Bool
  pub accepted : List ℕ
  pub executed : List Message

-- `server_execute_callback`: what it leaves in the flag.
unfoldable pub server_execute_callback : MsgCmd → Bool → Bool
server_execute_callback Messenger.stop flag = true
server_execute_callback Messenger.quit flag = flag
server_execute_callback Messenger.status flag = flag
server_execute_callback Messenger.set_values flag = flag
server_execute_callback Messenger.get_values flag = flag
server_execute_callback Messenger.start flag = flag
server_execute_callback Messenger.config flag = flag
server_execute_callback Messenger.connect flag = flag

-- `server_create` up to its thread, of a list at an address.
unfoldable pub server_create : (list : ℕ) → Run Server
server_create list = LinkedList.init list (record { next = λ x. 0; prev = λ x. 0 }) >>= λ heap.
    ok (record {
      connections = record {
        list = list;
        heap = heap;
        cnt = 0;
        entry = λ x. record { host = []; service = []; fd = 0; offset = 0; buffer = [] };
        closed = [];
      };
      exit_flag = false;
      accepted = [];
      executed = [];
    })

-- `server_destroy`: without a signal a thread that is still in its loop is waited for.
unfoldable pub server_destroy : Server × Bool → Run Server
server_destroy (srv, left) =
    Collections.destroy (λ (conn : Connection). conn.fd) (suc srv.connections.cnt) srv.connections
    >>= λ c. if left then ok (record srv { connections = c; exit_flag = true }) else blocked

-- A connection that was read into.
abbrev pub store_connection : (address : ℕ) → Connection → Server → Server
store_connection address conn srv = record srv {
  connections = record srv.connections {
    entry = Collections.put srv.connections.entry address conn;
  };
}

-- The server's callback, if it has one, may set the flag by the message. `malloc` gives an address that
-- it may choose by what is in the list, or 0.
module _ (callback : Option (Message → Bool → Bool)) (malloc : Collection Connection → ℕ) where
  -- The callback that is called with a message.
  unfoldable pub execute_message : Message → Server → Server
  unfolding server_execute_callback
  execute_message msg srv = record srv {
    exit_flag = elim callback [
      | none ↦ server_execute_callback msg.cmd srv.exit_flag
      | some execute ↦ execute msg srv.exit_flag
    ];
    executed = srv.executed ++ msg ∷ [];
  }

  unfoldable pub accept_guest : Option Guest → Server → Run Server
  unfolding server_add_connection
  accept_guest none srv = ok srv
  accept_guest (some g) srv =
      server_add_connection (malloc srv.connections) g.epoll_ok g.host g.service g.fd
        srv.connections
      >>= λ entered.
          ok (record srv { connections = entered.0; accepted = srv.accepted ++ g.fd ∷ [] })

  -- What a connection has sent; one that is at its end is deleted.
  unfoldable pub serve_readable : (address : ℕ) → Arrival → Server → Run Server
  unfolding read_connection_data extract_message execute_message
  serve_readable address a srv =
      let (conn, broken) = read_connection_data a.read (srv.connections.entry address) in
      let deleted =
        connection_delete address (store_connection address conn srv).connections >>= λ c.
        ok (record srv { connections = c }) in
      let executed = extract_message conn a.memory >>= λ found.
      ok (execute_message found.1 (store_connection address found.0 srv)) in
      if broken then deleted else executed

  abbrev pub handle_event : PollEvent → Server → Run Server
  handle_event (incoming guest) srv = accept_guest guest srv
  handle_event (readable address a) srv = serve_readable address a srv

  -- The loop over the events of one call.
  abbrev pub handle_events : List PollEvent → Server → Run Server
  handle_events [] srv = ok srv
  handle_events (e ∷ events) srv = handle_event e srv >>= handle_events events

  -- What the loop does behind `epoll_pwait`, and then with `loop`.
  abbrev pub after_wait :
      (loop : Server → Run (Server × Bool)) → Waited → Server → Run (Server × Bool)
  after_wait loop interrupted srv = loop srv
  after_wait loop failed srv = ok (srv, true)
  after_wait loop (reported events) srv = handle_events (events srv.connections) srv >>= loop

  -- The loop of the thread, for what its calls of `epoll_pwait` give: the server, and whether the loop
  -- was left; it goes on waiting where nothing more comes.
  unfoldable pub process_loop : List Waiting → Server → Run (Server × Bool)
  unfolding accept_guest serve_readable
  process_loop [] srv = ok (srv, srv.exit_flag)
  process_loop (w ∷ rest) srv =
      let going = after_wait (process_loop rest) w.waited srv in
      if srv.exit_flag
      then ok (srv, true)
      else if w.signalled
      then ok (record srv { exit_flag = true }, true)
      else going
