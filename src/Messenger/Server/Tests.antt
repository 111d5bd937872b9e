-- ===== src/Messenger/Server/Tests.antt =====
-- A server of messenger/src/messenger.c with memory for one connection.
use mathlib.Core.Path.{subst}
use multiprocessor.Common.{
  if_false, if_true, ◌==◌, refl, replicate, ℕ, fault, count, true, inl, ◌⊎◌, ◌∷◌, false, some, ◌++◌,
  ◌>>=◌, inr, if◌then◌else◌, [], Bool, ok, suc, ◌≡◌, List, arith, none, blocked,
}
use multiprocessor.Api.{codes}
use multiprocessor.LinkedList
use multiprocessor.Collections
use multiprocessor.Messenger.Parse.{parse_api_request}
use multiprocessor.Collections.{Collection}
use multiprocessor.Collections.Laws.{IsValid}
use multiprocessor.Messenger
use multiprocessor.Messenger.{Connection, Message}
use multiprocessor.Messenger.Receive.{Arrival}
use multiprocessor.Messenger.Server
use multiprocessor.Messenger.Server.{
  Server, PollEvent, Waiting, Endpoint, SetUp, Guest, start_process, process_loop, server_create,
  server_destroy,
}
use multiprocessor.Messenger.Server.Owning.{Owns, Reported}
use multiprocessor.Messenger.Server.Events.{IsFresh, AllReported}
use multiprocessor.Messenger.Server.Loop.{process_loop-Owns}

-- A socket that cannot be bound stays open when the next one can: 4 is made and never closed.
unbound_place :
    start_process
      (some 3)
      (some (
        record { socket = some 4; options_set = true; bound = false }
        ∷ record { socket = some 5; options_set = true; bound = true }
        ∷ []))
      true
      false
    ≡ record { goes_on = none; made = 3 ∷ 4 ∷ 5 ∷ []; closed = 5 ∷ 3 ∷ [] }
unfolding start_process
unbound_place = refl

-- A socket that does not take its options is closed twice.
option_place :
    start_process
      (some 3)
      (some (record { socket = some 4; options_set = false; bound = true } ∷ []))
      false
      true
    ≡ record { goes_on = none; made = 3 ∷ 4 ∷ []; closed = 4 ∷ 4 ∷ 3 ∷ [] }
unfolding start_process
option_place = refl

abbrev one_place : Collection Connection → ℕ
one_place c = if c.cnt == 0 then suc c.list else 0

one_place-IsFresh : IsFresh one_place
one_place-IsFresh c [] valid =
    let free : (c.cnt == 0) ≡ true = ground (arith, valid.counted) in
    let it : one_place c ≡ suc c.list = if_true (c.cnt == 0) (suc c.list) 0 free in
    inr (rw it (ground arith))
one_place-IsFresh c (x ∷ xs) valid =
    let taken : (c.cnt == 0) ≡ false = ground (arith, valid.counted) in
    let it : one_place c ≡ 0 = if_false (c.cnt == 0) (suc c.list) 0 taken in inl (rw it refl)

-- "stop\n" into an empty message.
abbrev stop_arrival : Arrival
stop_arrival = record {
  read = λ n. some (codes "stop" ++ 10 ∷ []);
  memory = record {
    cmd = Messenger.quit;
    cmd_len = 0;
    type = Messenger.unknown;
    msg_len = 0;
    msg_string = replicate 16 0;
  };
}

abbrev guest_comes : Collection Connection → List PollEvent
guest_comes c =
    Server.incoming
      (some (record { fd = 7; host = codes "h"; service = codes "80"; epoll_ok = true }))
    ∷ Server.incoming none
    ∷ []

abbrev first_sends : Collection Connection → List PollEvent
first_sends c = if c.cnt == 0 then [] else Server.readable (c.heap.next c.list) stop_arrival ∷ []

first_sends-Reported :
    (c : Collection Connection) (xs : List ℕ) → IsValid c xs → Reported (first_sends c) xs
first_sends-Reported c [] valid a =
    let free : (c.cnt == 0) ≡ true = ground (arith, valid.counted) in
    let it : first_sends c ≡ [] =
      if_true (c.cnt == 0) [] (Server.readable (c.heap.next c.list) stop_arrival ∷ []) free in
    rw it (omega arith)
first_sends-Reported c (x ∷ xs) valid a =
    let taken : (c.cnt == 0) ≡ false = ground (arith, valid.counted) in
    let it : first_sends c ≡ Server.readable (c.heap.next c.list) stop_arrival ∷ [] =
      if_false (c.cnt == 0) [] (Server.readable (c.heap.next c.list) stop_arrival ∷ []) taken in
    let head : c.heap.next c.list ≡ x = valid.holds.ring.links.0 in rw it (rw head (omega arith))

abbrev reports : (Collection Connection → List PollEvent) → Waiting
reports events = record { waited = Server.reported events; signalled = false }

reported-injective :
    {f g : Collection Connection → List PollEvent} → Server.reported f ≡ Server.reported g → f ≡ g
reported-injective e = cc e

-- A connection comes, and sends "stop".
abbrev two_waits : List Waiting
two_waits = reports guest_comes ∷ reports first_sends ∷ []

two_waits-AllReported : AllReported two_waits
two_waits-AllReported = (
  λ events c xs same valid.
      subst (λ f. Reported (f c) xs) (reported-injective same) (λ a. omega arith),
  (
    λ events c xs same valid.
        subst (λ f. Reported (f c) xs) (reported-injective same) (first_sends-Reported c xs valid),
    tt,
  ),
)

-- The connection is served to its message, and the loop is left with it in the list.
process_loop-Owns_example :
    ((server_create 1 >>= process_loop none one_place two_waits) ≡ fault)
    ⊎ ((srv : Server) × (left : Bool) × (xs : List ℕ) × ((server_create 1
            >>= process_loop none one_place two_waits)
          ≡ ok (srv, left))
        × Owns srv xs
        × (((left ≡ true)
              × (end : Server) × (server_destroy (srv, left) ≡ ok end)
              × ((d : ℕ) → count d end.connections.closed ≡ count d end.accepted))
            ⊎ ((left ≡ false) × (server_destroy (srv, left) ≡ blocked))))
process_loop-Owns_example =
    process_loop-Owns none one_place one_place-IsFresh 1 two_waits refl two_waits-AllReported

abbrev in_short : Server × Bool → List ℕ × Bool
in_short (srv, left) = (srv.accepted ++ srv.connections.cnt ∷ [], left)

two_waits_run :
    (r : Server × Bool) × ((server_create 1 >>= process_loop none one_place two_waits) ≡ ok r)
    × (in_short r ≡ (7 ∷ 1 ∷ [], true))
unfolding server_create process_loop LinkedList.init Collections.add LinkedList.add_back
    parse_api_request
two_waits_run = (_, refl, refl)
