-- ===== src/Tcp/Server/Descriptors.antt =====
-- The descriptor of a connection of tcp/src/tcp_process.c stays the same.
use multiprocessor.Common.{
  write_at, ◌||◌, false, Bool-cases, none, length, ℕ, leb, Option, some, take, find_byte,
  Option-cases, Bool, ◌++◌, ap, ◌∷◌, set, ◌+◌, refl, sym, inr, ◌≡◌, List, [], ok, ◌∙◌, inl, ◌-◌,
}
use mathlib.Core.Bool.{not}
use multiprocessor.Tcp.{
  shift, Session, Connection, Callback, max_buffer_size, handle_line, receive, round,
}
use multiprocessor.Tcp.Lines.{Keeps}

-- A callback that leaves the descriptor as it is.
abbrev pub KeepsFd : Callback → Type 0
KeepsFd f =
    (conn : Connection) (exit_flag : Bool) (r : Connection × Bool)
    → f conn exit_flag ≡ ok r
    → r.0.fd ≡ conn.fd

handle_line-fd :
    (reciever sender : Callback) (s s' : Session)
    → Keeps reciever
    → Keeps sender
    → KeepsFd reciever
    → KeepsFd sender
    → handle_line reciever sender s ≡ ok s'
    → s'.conn.fd ≡ s.conn.fd
unfolding handle_line
handle_line-fd reciever sender s s' keeps keeps' fd fd' ran =
    elim (Option-cases (find_byte 10 s.conn.request_used s.conn.request)) [
      | inl missing ↦
          let same : ok s ≡ ok s' = rw (handle_line, missing) at ran in
          let e : s ≡ s' = cc in ap (λ t. t.conn.fd) (sym e)
      | inr (endl, found) ↦
          let conn = record s.conn { request = set s.conn.request endl 0 } in
          let (r, went, _, _) = keeps.returns conn s.exit_flag in
          let (r', went', _, _) = keeps'.returns r.0 r.1 in
          let t : Session = record s {
            conn = record r'.0 {
              request = shift (endl + 1) r'.0.request;
              request_used = r'.0.request_used - (endl + 1);
            };
            exit_flag = r'.1;
            lines = s.lines ++ take endl s.conn.request ∷ [];
            written = s.written ++ r'.0.reply ∷ [];
          } in
          let whole : handle_line reciever sender s ≡ ok t =
            rw (handle_line, found, went, went') refl in
          let e : t ≡ s' = cc in
          ap (λ t. t.conn.fd) (sym e) ∙ fd' r.0 r.1 r' went' ∙ fd conn s.exit_flag r went
    ]

receive-fd :
    (reciever sender : Callback) (bytes : Option (List ℕ)) (s s' : Session)
    → Keeps reciever
    → Keeps sender
    → KeepsFd reciever
    → KeepsFd sender
    → receive reciever sender bytes s ≡ ok s'
    → s'.conn.fd ≡ s.conn.fd
receive-fd reciever sender none s s' keeps keeps' fd fd' ran =
    let e : record s { is_open = false } ≡ s' = cc in ap (λ t. t.conn.fd) (sym e)
receive-fd reciever sender (some []) s s' keeps keeps' fd fd' ran =
    let e : record s { is_open = false } ≡ s' = cc in ap (λ t. t.conn.fd) (sym e)
receive-fd reciever sender (some (b ∷ bytes)) s s' keeps keeps' fd fd' ran =
    handle_line-fd reciever sender
      (record s {
        conn = record s.conn {
          request = write_at s.conn.request_used (b ∷ bytes) s.conn.request;
          request_used = s.conn.request_used + length (b ∷ bytes);
        };
        got = s.got ++ b ∷ bytes;
      })
      s' keeps keeps' fd fd' ran

pub round-fd :
    (reciever sender : Callback) (read : ℕ → Option (List ℕ)) (s s' : Session)
    → Keeps reciever
    → Keeps sender
    → KeepsFd reciever
    → KeepsFd sender
    → round reciever sender read s ≡ ok s'
    → s'.conn.fd ≡ s.conn.fd
unfolding round
round-fd reciever sender read s s' keeps keeps' fd fd' ran =
    elim (Bool-cases (s.exit_flag || not s.is_open)) [
      | inl over ↦
          let same : ok s ≡ ok s' = rw (round, over) at ran in
          let e : s ≡ s' = cc in ap (λ t. t.conn.fd) (sym e)
      | inr going ↦ elim (Bool-cases (leb max_buffer_size s.conn.request_used)) [
        | inl full ↦
            let same : ok s ≡ ok s' = rw (round, going, full) at ran in
            let e : s ≡ s' = cc in ap (λ t. t.conn.fd) (sym e)
        | inr room ↦
            receive-fd reciever sender (read (max_buffer_size - s.conn.request_used)) s s' keeps
              keeps' fd fd' (rw (round, going, room) at ran)
      ]
    ]
