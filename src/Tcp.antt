-- ===== src/Tcp.antt =====
-- The server of tcp/src/tcp_process.c and tcp/include/tcp/tcp_process.h: its sockets, and what it does
-- with what its connections receive. A text is the list of its codes.
pub mod Arrays
pub mod Sockets
pub mod Lines
pub mod Client
pub mod Server
mod Tests
use mathlib.Core.Bool.{not}
use multiprocessor.Common.{
  take, c_string, same_nocase, find_byte, write_at, drop, ok, Run, ◌∷◌, ℕ, ◌>>=◌, ◌||◌, true, false,
  some, none, Option, List, fault, if◌then◌else◌, ◌+◌, leb, Bool, length, ◌-◌, ltb, ◌++◌, [], set,
}
use multiprocessor.Api.{codes}

-- `MAX_BUFFER_SIZE`.
abbrev pub max_buffer_size : ℕ
max_buffer_size = 512

-- `struct connection`, with the `max_buffer_size` bytes of `request`, and the text of `reply`.
pub record Connection : Type 0 where
  pub request : List ℕ
  pub request_used : ℕ
  pub reply : List ℕ
  pub fd : ℕ

-- A callback: what it makes of the connection and of the exit flag.
abbrev pub Callback : Type 0
Callback = Connection → Bool → Run (Connection × Bool)

-- `sprintf` into `reply`: a fault where the text does not fit.
abbrev pub put_reply : List ℕ → Connection → Run Connection
put_reply text conn =
    if ltb (length text) max_buffer_size then ok (record conn { reply = text }) else fault

-- The request, as a text.
abbrev pub with_request : Connection → (List ℕ → Run (Connection × Bool)) → Run (Connection × Bool)
with_request conn act = elim (c_string conn.request) [ none ↦ fault | some text ↦ act text ]

-- The words that stop the server.
abbrev pub stops : List ℕ → Bool
stops text =
    same_nocase text (codes "STOP")
    || same_nocase text (codes "S")
    || same_nocase text (codes "QUIT")
    || same_nocase text (codes "Q")
    || same_nocase text (codes "EXIT")

-- `default_server_reciever`; `hex` and `decimal` are `%lx` and `%d`.
unfoldable pub default_server_reciever : (hex decimal : ℕ → List ℕ) → Callback
default_server_reciever hex decimal conn exit_flag = with_request conn (λ text.
    if stops text
    then (put_reply
          (codes "RE"
            ++ hex 28
            ++ codes "{0:"
            ++ decimal conn.fd
            ++ codes ", stop command recieved}"
            ++ 10 ∷ [])
          conn
        >>= λ conn. ok (conn, true))
    else (put_reply
          (codes "RE"
            ++ hex (length text + 24 + 2)
            ++ codes "{0:"
            ++ decimal conn.fd
            ++ codes ","
            ++ text
            ++ codes ",recieved ok}")
          conn
        >>= λ conn. ok (conn, exit_flag)))

-- `default_server_sender`.
unfoldable pub default_server_sender : (hex decimal : ℕ → List ℕ) → Callback
default_server_sender hex decimal conn exit_flag = with_request conn (λ text.
    put_reply
      (codes "RE"
        ++ hex (length text + 32 + 2)
        ++ codes "{0:"
        ++ decimal conn.fd
        ++ codes ","
        ++ text
        ++ codes ",sent from sender ok}")
      conn
    >>= λ conn. ok (conn, exit_flag))

-- What the server does where it has no sender.
unfoldable pub no_sender : (hex decimal : ℕ → List ℕ) → Callback
no_sender hex decimal conn exit_flag = with_request conn (λ text.
    put_reply
      (codes "RE"
        ++ hex (length text + 20 + 2)
        ++ codes "{0:"
        ++ decimal conn.fd
        ++ codes ","
        ++ text
        ++ codes ",sent ok}"
        ++ 10 ∷ [])
      conn
    >>= λ conn. ok (conn, exit_flag))

-- One connection and the exit flag; whether it was not deleted yet; the lines that the callbacks got,
-- the replies that were written, and all that `read` gave.
pub record Session : Type 0 where
  pub conn : Connection
  pub exit_flag : Bool
  pub is_open : Bool
  pub lines : List (List ℕ)
  pub written : List (List ℕ)
  pub got : List ℕ

-- `memmove` of what is behind the line to the front.
abbrev pub shift : ℕ → List ℕ → List ℕ
shift n request = drop n request ++ drop (max_buffer_size - n) request

-- What is done with the bytes in `request`: its first line, if it has one, goes to both callbacks.
unfoldable pub handle_line : (reciever sender : Callback) → Session → Run Session
handle_line reciever sender s = elim (find_byte 10 s.conn.request_used s.conn.request) [
  | none ↦ ok s
  | some endl ↦
      reciever (record s.conn { request = set s.conn.request endl 0 }) s.exit_flag >>= λ r.
      sender r.0 r.1 >>= λ r. ok (record s {
        conn = record r.0 {
          request = shift (endl + 1) r.0.request;
          request_used = r.0.request_used - (endl + 1);
        };
        exit_flag = r.1;
        lines = s.lines ++ take endl s.conn.request ∷ [];
        written = s.written ++ r.0.reply ∷ [];
      })
]

-- What `read` gave: `none` where it fails.
abbrev pub receive : (reciever sender : Callback) → Option (List ℕ) → Session → Run Session
receive reciever sender none s = ok (record s { is_open = false })
receive reciever sender (some []) s = ok (record s { is_open = false })
receive reciever sender (some (b ∷ bytes)) s = handle_line reciever sender (record s {
  conn = record s.conn {
    request = write_at s.conn.request_used (b ∷ bytes) s.conn.request;
    request_used = s.conn.request_used + length (b ∷ bytes);
  };
  got = s.got ++ b ∷ bytes;
})

-- One round of the loop over the connections, for one that has something to read. `read` gives bytes
-- of those that are asked for.
unfoldable pub round :
    (reciever sender : Callback) → (read : ℕ → Option (List ℕ)) → Session → Run Session
unfolding handle_line
round reciever sender read s =
    if s.exit_flag || not s.is_open
    then ok s
    else if leb max_buffer_size s.conn.request_used
    then ok s
    else receive reciever sender (read (max_buffer_size - s.conn.request_used)) s

abbrev pub rounds :
    (reciever sender : Callback) → List (ℕ → Option (List ℕ)) → Session → Run Session
rounds reciever sender [] s = ok s
rounds reciever sender (read ∷ reads) s =
    round reciever sender read s >>= rounds reciever sender reads
