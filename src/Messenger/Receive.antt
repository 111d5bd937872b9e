-- ===== src/Messenger/Receive.antt =====
-- `read_connection_data` and `connection_extract_message` of messenger/src/messenger.c.
use multiprocessor.Common.{
  c_string, find_byte, write_at, ℕ, ◌-◌, if◌then◌else◌, false, leb, Run, true, ◌∷◌, some, none,
  Option, [], ◌+◌, length, ◌>>=◌, fault, ok, List, Bool, set,
}
use multiprocessor.Messenger.{Message, Connection, MsgType, max_msg_len}
use multiprocessor.Messenger
use multiprocessor.Messenger.Parse.{parse_api_request}

-- What `read` gave: `none` where it fails.
abbrev pub received : Option (List ℕ) → Connection → Connection × Bool
received none conn = (conn, true)
received (some []) conn = (conn, true)
received (some (b ∷ bytes)) conn = (
  record conn {
    buffer = write_at conn.offset (b ∷ bytes) conn.buffer;
    offset = conn.offset + length (b ∷ bytes);
  },
  false,
)

-- `read_connection_data`: `true` where it returns 1. `read` gives bytes of those that are asked for.
unfoldable pub read_connection_data : (read : ℕ → Option (List ℕ)) → Connection → Connection × Bool
read_connection_data read conn =
    if leb (max_msg_len + 1) conn.offset
    then (conn, true)
    else received (read (max_msg_len + 1 - conn.offset)) conn

-- `connection_extract_message`, where memory for the message was allotted: the connection and the
-- message. Without a newline the pointer behind `NULL` is copied from.
unfoldable pub extract_message : Connection → Message → Run (Connection × Message)
extract_message conn msg = elim (find_byte 10 conn.offset conn.buffer) [
  | none ↦ fault
  | some endl ↦
      let buffer = set conn.buffer endl 0 in
      elim (c_string buffer) [
        | none ↦ fault
        | some text ↦
            let n = length text in
            parse_api_request (record msg {
              type = Messenger.request;
              msg_len = n;
              msg_string = write_at 0 text msg.msg_string;
            })
            >>= λ msg. ok (record conn { buffer = buffer }, msg)
      ]
]

-- What a connection's event brings: what `read` gives, and the memory of the new message.
pub record Arrival : Type 0 where
  pub read : ℕ → Option (List ℕ)
  pub memory : Message

-- The loop of `tcp_server_process` on one connection: the messages that are extracted, until the
-- connection is deleted.
unfoldable pub serve : List Arrival → Connection → Run (List Message)
unfolding read_connection_data extract_message
serve [] conn = ok []
serve (a ∷ arrivals) conn =
    let (conn, broken) = read_connection_data a.read conn in
    if broken
    then ok []
    else extract_message conn a.memory >>= λ found.
        serve arrivals found.0 >>= λ messages. ok (found.1 ∷ messages)
