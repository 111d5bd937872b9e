-- ===== src/Messenger/Tests.antt =====
-- Connections and commands of messenger/src/messenger.c.
use multiprocessor.Api.{codes}
use multiprocessor.Common.{
  arith, false, true, inr, ◌==◌, if◌then◌else◌, fault, replicate, refl, ◌++◌, ◌>>=◌, ◌∷◌, List, [],
  ◌⊎◌, some, ◌≡◌, ok,
}
use multiprocessor.Collections.{Collection}
use multiprocessor.Collections.Laws.{IsValid}
use multiprocessor.LinkedList.{Heap}
use multiprocessor.Messenger
use multiprocessor.Messenger.{Connection, Message}
use multiprocessor.Messenger.Parse.{get_connect_information, parse_text, parse_api_request}
use multiprocessor.Messenger.Receive.{Arrival, serve}
use multiprocessor.Messenger.Extract.{Says, AllSay}
use multiprocessor.Messenger.Repeats.{Opens, serve-first, serve-repeats}
use multiprocessor.Messenger.Connect.{Reach, server_add_connection}
use multiprocessor.Messenger.Client.{Client, client_execute_callback}
use multiprocessor.Messenger.Sending.{execute-write, execute-unsent, server_add_connection-branches}
use multiprocessor.Messenger.Information.{get_connect_information_lem}

-- A connection with a buffer of 16 bytes, so that it can be shown.
abbrev new_conn : Connection
new_conn = record {
  host = codes "h";
  service = codes "80";
  fd = 5;
  offset = 0;
  buffer = replicate 16 0;
}

abbrev blank_message : Message
blank_message = record {
  cmd = Messenger.quit;
  cmd_len = 0;
  type = Messenger.unknown;
  msg_len = 0;
  msg_string = replicate 16 0;
}

-- "get\n".
abbrev first_arrival : Arrival
first_arrival = record { read = λ n. some (codes "get" ++ 10 ∷ []); memory = blank_message }

-- "stop\n".
abbrev second_arrival : Arrival
second_arrival = record { read = λ n. some (codes "stop" ++ 10 ∷ []); memory = blank_message }

first_arrival-Opens : Opens (codes "get") [] new_conn first_arrival
first_arrival-Opens = record {
  empty = refl;
  clean = record { no_newline = refl; no_zero = refl };
  arrived = refl;
}

serve-first_example :
    (m : Message) × (serve (first_arrival ∷ []) new_conn ≡ ok (m ∷ [])) × Says (codes "get") m
serve-first_example =
    serve-first (codes "get") [] (codes "get") new_conn first_arrival first_arrival-Opens refl

serve-repeats_example :
    (serve (first_arrival ∷ second_arrival ∷ []) new_conn ≡ fault)
    ⊎ ((ms : List Message) × (serve (first_arrival ∷ second_arrival ∷ []) new_conn ≡ ok ms)
        × AllSay (codes "get") ms)
serve-repeats_example =
    serve-repeats (codes "get") [] new_conn first_arrival (second_arrival ∷ []) first_arrival-Opens

-- The second message is "get" as well.
stuck_messages :
    serve (first_arrival ∷ second_arrival ∷ []) new_conn
    ≡ (serve (first_arrival ∷ []) new_conn >>= λ ms. ok (ms ++ ms))
unfolding serve parse_api_request parse_text
stuck_messages = refl

-- A client with one connection, to host "h" and port "80", at address 2 of its list at 1.
abbrev one_link : Heap
one_link = record {
  next = λ x. if x == 1 then 2 else if x == 2 then 1 else 0;
  prev = λ x. if x == 1 then 2 else if x == 2 then 1 else 0;
}

abbrev one_connection : Collection Connection
one_connection = record { list = 1; heap = one_link; cnt = 1; entry = λ x. new_conn; closed = [] }

one_connection-IsValid : IsValid one_connection (2 ∷ [])
one_connection-IsValid = record {
  holds = record {
    ring = record {
      links = (refl, (refl, (refl, refl)));
      apart = record { once = λ a. ground arith; nonnull = refl };
    };
    clean = λ x absent.
        let not_1 : (x == 1) ≡ false = ground (arith, absent) in
        let not_2 : (x == 2) ≡ false = ground (arith, absent) in
        (rw (not_1, not_2) refl, rw (not_1, not_2) refl);
  };
  counted = refl;
}

abbrev one_client : Client
one_client = record { connections = one_connection; exit_flag = false; sent = [] }

-- "stop h 80\n" and "stop g 81\n".
abbrev stop_known : Message
stop_known = record {
  cmd = Messenger.stop;
  cmd_len = 4;
  type = Messenger.request;
  msg_len = 10;
  msg_string = codes "stop h 80" ++ 10 ∷ 0 ∷ [];
}

abbrev stop_unknown : Message
stop_unknown = record stop_known { msg_string = codes "stop g 81" ++ 10 ∷ 0 ∷ [] }

abbrev one_reach : Reach
one_reach = record {
  resolved = some (record { socket = some 6; connects = true } ∷ []);
  address = 3;
  epoll_ok = true;
}

execute-write_example :
    client_execute_callback 2 one_reach stop_known one_client
    ≡ ok (record one_client { sent = (5, codes "stop h 80" ++ 10 ∷ []) ∷ [] })
unfolding get_connect_information
execute-write_example =
    execute-write 2 one_reach stop_known one_client (2 ∷ []) (codes "h") (codes "80") 2
      (record {
        valid = one_connection-IsValid;
        enough = omega arith;
        is_sent = refl;
        information = refl;
      })
      refl

execute-unsent_example :
    (client_execute_callback 2 one_reach stop_unknown one_client ≡ fault)
    ⊎ ((cli' : Client) × (client_execute_callback 2 one_reach stop_unknown one_client ≡ ok cli')
        × (cli'.sent ≡ one_client.sent))
unfolding get_connect_information
execute-unsent_example =
    execute-unsent 2 one_reach stop_unknown one_client (2 ∷ []) (codes "g") (codes "81")
      (record {
        valid = one_connection-IsValid;
        enough = omega arith;
        is_sent = refl;
        information = refl;
      })
      refl (record { valid = one_connection-IsValid; fresh = inr refl })

server_add_connection-branches_example :
    (server_add_connection 0 true (codes "h") (codes "80") 7 one_connection
      ≡ ok (record one_connection { closed = 7 ∷ [] }, false))
    × ((c' : Collection Connection) × (server_add_connection 3 true
            (codes "h")
            (codes "80")
            7
            one_connection
          ≡ ok (c', true))
        × IsValid c' (2 ∷ 3 ∷ [])
        × ((c'.entry 3).fd ≡ 7)
        × (c'.closed ≡ []))
    × (server_add_connection 3 false (codes "h") (codes "80") 7 one_connection ≡ fault)
server_add_connection-branches_example =
    server_add_connection-branches 3 7 (codes "h") (codes "80") one_connection (2 ∷ [])
      one_connection-IsValid refl refl

get_connect_information_lem_example :
    get_connect_information stop_known ≡ ok (some (codes "h", codes "80"))
get_connect_information_lem_example =
    get_connect_information_lem stop_known (codes "stop") (codes "h") (codes "80") [] 32
      (record { host_text = refl; port_text = refl; port_word = refl }) refl refl
