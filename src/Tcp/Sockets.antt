-- ===== src/Tcp/Sockets.antt =====
-- The sockets of tcp/src/tcp_process.c: where `tcp_server_process` listens, and what `tcp_client_process`
-- connects to.
use mathlib.Core.Bool.{not}
use multiprocessor.Common.{
  Bool-cases, ap, Option-cases, inl, some, ◌&&◌, Bool, ◌≡◌, none, Option, refl, ◌∷◌, List, [],
  if◌then◌else◌, inr, ℕ, ◌++◌,
}

-- One address that `getaddrinfo` found: the socket, if it could be made, and what `setsockopt` and
-- `bind`, or `connect`, answer.
pub record Address : Type 0 where
  pub socket : Option ℕ
  pub options_set : Bool
  pub bound : Bool
  pub connected : Bool

-- What the loop over the addresses comes to: the socket, and those that were closed.
pub record Chosen : Type 0 where
  pub fd : Option ℕ
  pub closed : List ℕ

abbrev pub closing : ℕ → Chosen → Chosen
closing fd c = record c { closed = fd ∷ c.closed }

-- The loop of the server.
unfoldable pub choose_listener : List Address → Chosen
choose_listener [] = record { fd = none; closed = [] }
choose_listener (a ∷ addresses) =
    let later = choose_listener addresses in
    elim a.socket [
      | none ↦ later
      | some fd ↦
          if not a.options_set
          then closing fd later
          else if a.bound
          then record { fd = some fd; closed = [] }
          else closing fd later
    ]

-- The loop of the client.
unfoldable pub choose_peer : List Address → Chosen
choose_peer [] = record { fd = none; closed = [] }
choose_peer (a ∷ addresses) =
    let later = choose_peer addresses in
    elim a.socket [
      | none ↦ later
      | some fd ↦ if a.connected then record { fd = some fd; closed = [] } else closing fd later
    ]

-- How both processes start: they exit, or go on with a socket.
pub data Start : Type 0 where
  exits : Start
  goes_on : (fd : ℕ) → Start

-- `tcp_server_process` up to its loop: `resolved` is what `getaddrinfo` gives.
unfoldable pub start_server : (resolved : Option (List Address)) → (listens : Bool) → Start
unfolding choose_listener
start_server resolved listens = elim resolved [
  | none ↦ exits
  | some addresses ↦ elim (choose_listener addresses).fd [
    | none ↦ exits
    | some fd ↦ if listens then goes_on fd else exits
  ]
]

-- `tcp_client_process` up to its loop.
unfoldable pub start_client : (resolved : Option (List Address)) → Start
unfolding choose_peer
start_client resolved = elim resolved [
  | none ↦ exits
  | some addresses ↦ elim (choose_peer addresses).fd [ none ↦ exits | some fd ↦ goes_on fd ]
]

-- The sockets that are made on the way to the first address that will do.
abbrev pub tried : (Address → Bool) → List Address → List ℕ
tried usable [] = []
tried usable (a ∷ addresses) =
    let rest = tried usable addresses in
    elim a.socket [ none ↦ rest | some fd ↦ if usable a then fd ∷ [] else fd ∷ rest ]

abbrev pub listed : Option ℕ → List ℕ
listed none = []
listed (some fd) = fd ∷ []

-- No socket is left open but the one that is gone on with: those that were closed, and then that one,
-- are all that were made, in the server up to the first that takes its options and is bound, in the
-- client up to the first that connects.
pub sockets_closed :
    (addresses : List Address)
    → ((choose_listener addresses).closed ++ listed (choose_listener addresses).fd
        ≡ tried (λ a. a.options_set && a.bound) addresses)
      × ((choose_peer addresses).closed ++ listed (choose_peer addresses).fd
          ≡ tried (λ a. a.connected) addresses)
unfolding choose_listener choose_peer
sockets_closed [] = (refl, refl)
sockets_closed (a ∷ addresses) =
    let rest = sockets_closed addresses in
    elim (Option-cases a.socket) [
      | inl missing ↦ (rw (choose_listener, missing) rest.0, rw (choose_peer, missing) rest.1)
      | inr (fd, made) ↦ (
        elim (Bool-cases a.options_set) [
          | inl optioned ↦ elim (Bool-cases a.bound) [
            | inl bound ↦ rw (choose_listener, made, optioned, bound) refl
            | inr unbound ↦ rw (choose_listener, made, optioned, unbound) (ap (λ t. fd ∷ t) rest.0)
          ]
          | inr unset ↦ rw (choose_listener, made, unset) (ap (λ t. fd ∷ t) rest.0)
        ],
        elim (Bool-cases a.connected) [
          | inl connected ↦ rw (choose_peer, made, connected) refl
          | inr refused ↦ rw (choose_peer, made, refused) (ap (λ t. fd ∷ t) rest.1)
        ],
      )
    ]
