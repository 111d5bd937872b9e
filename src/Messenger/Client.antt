-- ===== src/Messenger/Client.antt =====
-- `client_execute_callback` of messenger/src/messenger.c.
use multiprocessor.Common.{
  take, ℕ, fault, ◌>>=◌, some, Bool, none, ok, false, ◌∷◌, [], ◌++◌, Run, List, true,
}
use multiprocessor.Collections.{Collection}
use multiprocessor.Messenger
use multiprocessor.Messenger.{Connection, Message, MsgCmd}
use multiprocessor.Messenger.Parse.{get_connect_information}
use multiprocessor.Messenger.Connect.{
  connection_get, client_add_connection, Reach, failed, no_memory, added,
}

-- `struct client`, and the bytes that were written to each descriptor.
pub record Client : Type 0 where
  pub connections : Collection Connection
  pub exit_flag : Bool
  pub sent : List (ℕ × List ℕ)

-- A connection that `connection_get` found: the message is written to it.
abbrev pub write_message : Message → (address : ℕ) → Client → Client
write_message msg address cli = record cli {
  sent = cli.sent ++ ((cli.connections.entry address).fd, take msg.msg_len msg.msg_string) ∷ [];
}

-- None was found: a new connection is made, but `conn` stays `NULL`, and its descriptor is read.
unfoldable pub reconnect : Reach → (host port : List ℕ) → Client → Run Client
reconnect reach host port cli = client_add_connection reach host port cli.connections >>= λ made.
    elim made.1 [
      | failed ↦ ok (record cli { connections = made.0 })
      | no_memory ↦ fault
      | added fd ↦ fault
    ]

-- The commands that are sent on.
unfoldable pub send_command : (fuel : ℕ) → Reach → Message → Client → Run Client
unfolding reconnect
send_command fuel reach msg cli = get_connect_information msg >>= λ information. elim information [
  | none ↦ ok cli
  | some (host, port) ↦ connection_get fuel host port cli.connections >>= λ conn. elim conn [
    | none ↦ reconnect reach host port cli
    | some address ↦ ok (write_message msg address cli)
  ]
]

unfoldable pub connect_command : Reach → Message → Client → Run Client
connect_command reach msg cli = get_connect_information msg >>= λ information. elim information [
  | none ↦ ok cli
  | some (host, port) ↦ client_add_connection reach host port cli.connections >>= λ made.
      ok (record cli { connections = made.0 })
]

-- `client_execute_callback`: `fuel` bounds the search among the connections.
unfoldable pub execute_by : (fuel : ℕ) → Reach → MsgCmd → Message → Client → Run Client
unfolding send_command connect_command
execute_by fuel reach Messenger.quit msg cli = ok (record cli { exit_flag = true })
execute_by fuel reach Messenger.connect msg cli = connect_command reach msg cli
execute_by fuel reach Messenger.status msg cli = ok cli
execute_by fuel reach Messenger.stop msg cli = send_command fuel reach msg cli
execute_by fuel reach Messenger.start msg cli = send_command fuel reach msg cli
execute_by fuel reach Messenger.set_values msg cli = send_command fuel reach msg cli
execute_by fuel reach Messenger.get_values msg cli = send_command fuel reach msg cli
execute_by fuel reach Messenger.config msg cli = ok cli

unfoldable pub client_execute_callback : (fuel : ℕ) → Reach → Message → Client → Run Client
unfolding execute_by
client_execute_callback fuel reach msg cli = execute_by fuel reach msg.cmd msg cli

-- The commands that go on to a server.
abbrev pub is_sent : MsgCmd → Bool
is_sent Messenger.stop = true
is_sent Messenger.start = true
is_sent Messenger.set_values = true
is_sent Messenger.get_values = true
is_sent _ = false
