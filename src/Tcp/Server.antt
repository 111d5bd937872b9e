-- ===== src/Tcp/Server.antt =====
-- The loop of `tcp_server_process` in tcp/src/tcp_process.c over all connections, on the counted list of
-- Collections.
use multiprocessor.Common.{
  [], none, ◌||◌, Option, true, blocked, ◌++◌, if◌then◌else◌, false, ◌==◌, List, Bool, suc, ok,
  replicate, ◌>>=◌, zero, ℕ, some, Run, ◌∷◌,
}
pub mod Descriptors
pub mod Service
pub mod Entering
pub mod Serving
pub mod Rounds
mod Tests
use mathlib.Core.Bool.{not}
use multiprocessor.LinkedList
use multiprocessor.Collections
use multiprocessor.Collections.{Collection}
use multiprocessor.Tcp.{Session, Callback, max_buffer_size, round}

-- What `select` and the calls behind it give: the socket of a new connection, the descriptors that have
-- something to read, and what `read` gives on them.
pub record Ready : Type 0 where
  pub accepted : Option ℕ
  pub is_set : (fd : ℕ) → Bool
  pub read : (fd n : ℕ) → Option (List ℕ)

-- `struct server`, the exit flag, and the sockets that were accepted.
pub record Server : Type 0 where
  pub connections : Collection Session
  pub exit_flag : Bool
  pub accepted : List ℕ

-- What `connection_add` puts into a connection.
abbrev pub new_session : (fd : ℕ) → Session
new_session fd = record {
  conn = record { request = replicate max_buffer_size 0; request_used = 0; reply = []; fd = fd };
  exit_flag = false;
  is_open = true;
  lines = [];
  written = [];
  got = [];
}

-- `server_init` of a list at an address.
unfoldable pub server_init : (list : ℕ) → Run Server
server_init list = LinkedList.init list (record { next = λ x. 0; prev = λ x. 0 }) >>= λ heap.
    ok (record {
      connections = record {
        list = list;
        heap = heap;
        cnt = 0;
        entry = λ x. new_session 0;
        closed = [];
      };
      exit_flag = false;
      accepted = [];
    })

-- A callback sees the flag that all connections share.
abbrev pub session_at : (address : ℕ) → Server → Session
session_at address srv = record (srv.connections.entry address) { exit_flag = srv.exit_flag }

abbrev pub store_session : (address : ℕ) → Session → Server → Server
store_session address s srv = record srv {
  connections = record srv.connections { entry = Collections.put srv.connections.entry address s };
  exit_flag = s.exit_flag;
}

abbrev pub connection_delete : (address : ℕ) → Server → Run Server
connection_delete address srv = Collections.delete (λ s. s.conn.fd) address srv.connections >>= λ c.
    ok (record srv { connections = c })

-- `malloc` gives an address that it may choose by what is in the list, or 0.
module _ (reciever sender : Callback) (malloc : Collection Session → ℕ) where
  -- A new connection; without memory its socket is closed.
  unfoldable pub accept_connection : Ready → Server → Run Server
  accept_connection ready srv = elim ready.accepted [
    | none ↦ ok srv
    | some fd ↦
        let address = malloc srv.connections in
        let dropped : Server = record srv {
          connections = record srv.connections { closed = srv.connections.closed ++ fd ∷ [] };
          accepted = srv.accepted ++ fd ∷ [];
        } in
        let added = Collections.add address (new_session fd) srv.connections >>= λ c.
        ok (record srv { connections = c; accepted = srv.accepted ++ fd ∷ [] }) in
        if address == 0 then ok dropped else added
  ]

  -- A connection that has something to read; one that is at its end is deleted.
  unfoldable pub serve_connection : Ready → (address : ℕ) → Server → Run Server
  serve_connection ready address srv =
      round reciever sender (ready.read (session_at address srv).conn.fd) (session_at address srv)
      >>= λ s.
          if s.is_open
          then ok (store_session address s srv)
          else connection_delete address (store_session address s srv)

  -- The loop over the connections from `item` on; `blocked` where it takes more rounds.
  unfoldable pub serve_connections : Ready → (fuel item : ℕ) → Server → Run Server
  unfolding serve_connection
  serve_connections ready zero item srv = blocked
  serve_connections ready (suc fuel) item srv =
      let served = LinkedList.load_next srv.connections.heap item >>= λ next.
      (if ready.is_set (srv.connections.entry item).conn.fd
        then serve_connection ready item srv
        else ok srv)
      >>= serve_connections ready fuel next in
      if srv.exit_flag || not (LinkedList.is_valid_elem srv.connections.list item)
      then ok srv
      else served

  -- One round of the loop.
  unfoldable pub server_round : Ready → Server → Run Server
  unfolding accept_connection serve_connections LinkedList.first_elem
  server_round ready srv = accept_connection ready srv >>= λ srv.
      LinkedList.first_elem srv.connections.list srv.connections.heap >>= λ item.
      serve_connections ready (suc srv.connections.cnt) item srv

  -- The loop, for what `select` gives in its rounds; it goes on waiting where nothing more comes.
  unfoldable pub server_loop : List Ready → Server → Run Server
  unfolding server_round
  server_loop [] srv = ok srv
  server_loop (ready ∷ rest) srv =
      let going = server_round ready srv >>= server_loop rest in
      if srv.exit_flag then ok srv else going

-- `server_destroy`.
unfoldable pub server_destroy : Server → Run Server
server_destroy srv =
    Collections.destroy (λ s. s.conn.fd) (suc srv.connections.cnt) srv.connections >>= λ c.
    ok (record srv { connections = c })
