-- ===== src/Messenger/Connect.antt =====
-- Making connections in messenger/src/messenger.c: `connection_add`, `connection_delete`,
-- `connection_get`, `server_add_connection` and `client_add_connection`.
use multiprocessor.Common.{
  same_text, ok, some, true, Option, false, [], if◌then◌else◌, List, ◌&&◌, ◌>>=◌, ◌∷◌, none, ◌+◌,
  ◌++◌, ℕ, Bool, ◌==◌, fault, Run, replicate, length, ltb,
}
use multiprocessor.Collections
use multiprocessor.Collections.{Collection}
use multiprocessor.Messenger.{Connection, max_msg_len}

-- `NI_MAXHOST` and `NI_MAXSERV` of netdb.h.
abbrev pub ni_maxhost : ℕ
ni_maxhost = 1025

abbrev pub ni_maxserv : ℕ
ni_maxserv = 32

-- What `connection_add` and the two `strncpy` put into a connection. A host or a service that is too
-- long is left without its end, and is a fault here already.
abbrev pub new_connection : (host service : List ℕ) → ℕ → Run Connection
new_connection host service fd =
    if ltb (length host) ni_maxhost && ltb (length service) ni_maxserv
    then ok (record {
      host = host;
      service = service;
      fd = fd;
      offset = 0;
      buffer = replicate (max_msg_len + 1) 0;
    })
    else fault

-- `connection_get`.
unfoldable pub connection_get :
    (fuel : ℕ) (host port : List ℕ) → Collection Connection → Run (Option ℕ)
connection_get fuel host port connections =
    Collections.get (λ conn. same_text conn.service port && same_text conn.host host) fuel
      connections

abbrev pub connection_delete : ℕ → Collection Connection → Run (Collection Connection)
connection_delete address connections = Collections.delete (λ conn. conn.fd) address connections

-- What both functions do with a descriptor: `false` where there is no memory, and the descriptor was
-- closed. `address` is what `malloc` gives, 0 for `NULL`; a connection that `epoll_ctl` does not take
-- is deleted, and then freed once more.
unfoldable pub enter :
    (address : ℕ) (epoll_ok : Bool) (host service : List ℕ) (fd : ℕ)
    → Collection Connection
    → Run (Collection Connection × Bool)
enter address epoll_ok host service fd connections =
    if address == 0
    then ok (record connections { closed = connections.closed ++ fd ∷ [] }, false)
    else new_connection host service fd >>= λ conn.
        Collections.add address conn connections >>= λ connections.
        (if epoll_ok
          then ok (connections, true)
          else connection_delete address connections >>= λ c. fault)

-- `server_add_connection`: `true` where it returns 0.
unfoldable pub server_add_connection :
    (address : ℕ) (epoll_ok : Bool) (host service : List ℕ) (fd : ℕ)
    → Collection Connection
    → Run (Collection Connection × Bool)
unfolding enter
server_add_connection address epoll_ok host service fd connections =
    enter address epoll_ok host service fd connections

-- One address that `getaddrinfo` found: the socket, if it could be made, and whether it connects.
pub record Attempt : Type 0 where
  pub socket : Option ℕ
  pub connects : Bool

-- The loop over the addresses: the first that connects, and the sockets that were closed.
abbrev pub first_connected : List Attempt → Option ℕ × List ℕ
first_connected [] = (none, [])
first_connected (a ∷ attempts) =
    let later = first_connected attempts in
    elim a.socket [
      | none ↦ later
      | some fd ↦ if a.connects then (some fd, []) else (later.0, fd ∷ later.1)
    ]

-- What `client_add_connection` returns: -1, 1, or a descriptor.
pub data Added : Type 0 where
  failed : Added
  no_memory : Added
  added : (fd : ℕ) → Added

-- What the system gives the function: the addresses, the memory, and whether epoll takes the socket.
pub record Reach : Type 0 where
  pub resolved : Option (List Attempt)
  pub address : ℕ
  pub epoll_ok : Bool

unfoldable pub client_add_connection :
    Reach → (host port : List ℕ) → Collection Connection → Run (Collection Connection × Added)
unfolding enter
client_add_connection reach host port connections = elim reach.resolved [
  | none ↦ ok (connections, failed)
  | some attempts ↦
      let closed = record connections {
        closed = connections.closed ++ (first_connected attempts).1;
      } in
      elim (first_connected attempts).0 [
        | none ↦ ok (closed, failed)
        | some fd ↦ enter reach.address reach.epoll_ok host port fd closed >>= λ entered.
            ok (entered.0, if entered.1 then added fd else no_memory)
      ]
]
