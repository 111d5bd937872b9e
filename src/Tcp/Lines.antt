-- ===== src/Tcp/Lines.antt =====
-- What the server of tcp/src/tcp_process.c does with the bytes that a connection receives.
use mathlib.Core.Bool.{not}
use mathlib.Core.List.{append_assoc}
use multiprocessor.Common.{
  write_at, Option, some, ◌||◌, none, leb, true, false, ◌>>=◌, Bool-cases, drop, find_byte,
  Option-cases, take, [], length-set, count, ◌∙◌, Bool, ◌≤◌, inl, length, set, ok, ◌+◌, ℕ, List,
  ◌++◌, ◌≡◌, ◌∷◌, inr, arith, refl, sym, ap, ◌-◌,
}
use multiprocessor.Tcp.{
  Connection, Session, Callback, max_buffer_size, handle_line, receive, round, rounds, shift,
}
use multiprocessor.Tcp.Arrays.{
  find_byte-Found, take-write, length-write, drop-set, length-shift, take-append_le, length-drop,
}

-- Lines, each with its newline.
abbrev pub unlines : List (List ℕ) → List ℕ
unlines [] = []
unlines (l ∷ ls) = l ++ 10 ∷ unlines ls

abbrev pub NoNewlines : List (List ℕ) → Type 0
NoNewlines [] = Unit
NoNewlines (l ∷ ls) = (count 10 l ≡ 0) × NoNewlines ls

-- What was received and is not handled yet.
abbrev pub pending : Session → List ℕ
pending s = take s.conn.request_used s.conn.request

-- Every byte that was received is in a line that was handled, or waits, in the order of arrival.
pub record IsValid (s : Session) : Type 0 where
  pub size : length s.conn.request ≡ max_buffer_size
  pub used : s.conn.request_used ≤ max_buffer_size
  pub whole : unlines s.lines ++ pending s ≡ s.got
  pub single : NoNewlines s.lines

-- A callback that returns, and leaves the request as it is.
pub record Keeps (f : Callback) : Type 0 where
  pub returns :
      (conn : Connection) (exit_flag : Bool)
      → (r : Connection × Bool) × (f conn exit_flag ≡ ok r)
        × (r.0.request ≡ conn.request)
        × (r.0.request_used ≡ conn.request_used)

pub unlines-append :
    (ls : List (List ℕ)) (l rest : List ℕ)
    → unlines (ls ++ l ∷ []) ++ rest ≡ unlines ls ++ (l ++ 10 ∷ rest)
unlines-append [] l rest = append_assoc l (10 ∷ []) rest
unlines-append (k ∷ ls) l rest =
    append_assoc k (10 ∷ unlines (ls ++ l ∷ [])) rest
    ∙ ap (λ t. k ++ 10 ∷ t) (unlines-append ls l rest)
    ∙ sym (append_assoc k (10 ∷ unlines ls) (l ++ 10 ∷ rest))

NoNewlines-append :
    (ls : List (List ℕ)) (l : List ℕ) → NoNewlines ls → count 10 l ≡ 0 → NoNewlines (ls ++ l ∷ [])
NoNewlines-append [] l all last = (last, tt)
NoNewlines-append (k ∷ ls) l all last = (all.0, NoNewlines-append ls l all.1 last)

-- The first line goes to the callbacks, and what lies behind it waits.
handle_line-IsValid :
    (reciever sender : Callback) (s : Session)
    → Keeps reciever
    → Keeps sender
    → IsValid s
    → (s' : Session) × (handle_line reciever sender s ≡ ok s') × IsValid s' × (s'.got ≡ s.got)
unfolding handle_line
handle_line-IsValid reciever sender s keeps keeps' valid =
    elim (Option-cases (find_byte 10 s.conn.request_used s.conn.request)) [
      | inl missing ↦ (s, rw (handle_line, missing) refl, valid, refl)
      | inr (endl, found) ↦
          let f = find_byte-Found 10 s.conn.request_used s.conn.request endl found in
          let conn = record s.conn { request = set s.conn.request endl 0 } in
          let (r, ran, same, used) = keeps.returns conn s.exit_flag in
          let (r', ran', same', used') = keeps'.returns r.0 r.1 in
          let request : r'.0.request ≡ set s.conn.request endl 0 = same' ∙ same in
          let n : r'.0.request_used ≡ s.conn.request_used = used' ∙ used in
          let behind : drop (endl + 1) r'.0.request ≡ drop (endl + 1) s.conn.request =
            ap (drop (endl + 1)) request ∙ drop-set endl 0 s.conn.request in
          let size : length r'.0.request ≡ max_buffer_size =
            ap length request ∙ length-set s.conn.request endl 0 ∙ valid.size in
          let t : Session = record s {
            conn = record r'.0 {
              request = shift (endl + 1) r'.0.request;
              request_used = r'.0.request_used - (endl + 1);
            };
            exit_flag = r'.1;
            lines = s.lines ++ take endl s.conn.request ∷ [];
            written = s.written ++ r'.0.reply ∷ [];
          } in
          let left : pending t
              ≡ take (s.conn.request_used - (endl + 1)) (drop (endl + 1) s.conn.request) =
            take-append_le (r'.0.request_used - (endl + 1)) (drop (endl + 1) r'.0.request)
              (drop (max_buffer_size - (endl + 1)) r'.0.request)
              (omega (arith, n, size, valid.used, length-drop (endl + 1) r'.0.request))
            ∙ ap (λ m. take (m - (endl + 1)) (drop (endl + 1) r'.0.request)) n
            ∙ ap (take (s.conn.request_used - (endl + 1))) behind in
          (
            t,
            rw (handle_line, found, ran, ran') refl,
            record {
              size =
                  length-shift (endl + 1) r'.0.request (omega (arith, f.inside, valid.used)) size;
              used = omega (arith, n, valid.used);
              whole =
                  unlines-append s.lines (take endl s.conn.request) (pending t)
                  ∙ ap (λ u. unlines s.lines ++ (take endl s.conn.request ++ 10 ∷ u)) left
                  ∙ ap (λ u. unlines s.lines ++ u) (sym f.parts)
                  ∙ valid.whole;
              single =
                  NoNewlines-append s.lines (take endl s.conn.request) valid.single f.none_before;
            },
            refl,
          )
    ]

-- `read` gives no more than is asked for.
abbrev pub IsRead : (ℕ → Option (List ℕ)) → Type 0
IsRead read = (n : ℕ) (bytes : List ℕ) → read n ≡ some bytes → length bytes ≤ n

receive-IsValid :
    (reciever sender : Callback) (bytes : Option (List ℕ)) (s : Session)
    → Keeps reciever
    → Keeps sender
    → IsValid s
    → ((b : List ℕ) → bytes ≡ some b → s.conn.request_used + length b ≤ max_buffer_size)
    → (s' : Session) × (receive reciever sender bytes s ≡ ok s') × IsValid s'
receive-IsValid reciever sender none s keeps keeps' valid room = (
  record s { is_open = false },
  refl,
  record { size = valid.size; used = valid.used; whole = valid.whole; single = valid.single },
)
receive-IsValid reciever sender (some []) s keeps keeps' valid room = (
  record s { is_open = false },
  refl,
  record { size = valid.size; used = valid.used; whole = valid.whole; single = valid.single },
)
receive-IsValid reciever sender (some (b ∷ bytes)) s keeps keeps' valid room =
    let new = b ∷ bytes in
    let fits = room new refl in
    let t : Session = record s {
      conn = record s.conn {
        request = write_at s.conn.request_used new s.conn.request;
        request_used = s.conn.request_used + length new;
      };
      got = s.got ++ new;
    } in
    let put =
      take-write s.conn.request_used new s.conn.request (omega (arith, valid.size, valid.used)) in
    let valid' : IsValid t = record {
      size =
          length-write s.conn.request_used new s.conn.request (omega (arith, valid.size, fits))
          ∙ valid.size;
      used = fits;
      whole =
          ap (λ u. unlines s.lines ++ u) put
          ∙ sym (append_assoc (unlines s.lines) (pending s) new)
          ∙ ap (λ u. u ++ new) valid.whole;
      single = valid.single;
    } in
    let (s', ran, done, _) = handle_line-IsValid reciever sender t keeps keeps' valid' in
    (s', ran, done)

pub round-IsValid :
    (reciever sender : Callback) (read : ℕ → Option (List ℕ)) (s : Session)
    → Keeps reciever
    → Keeps sender
    → IsRead read
    → IsValid s
    → (s' : Session) × (round reciever sender read s ≡ ok s') × IsValid s'
unfolding round
round-IsValid reciever sender read s keeps keeps' bounded valid =
    elim (Bool-cases (s.exit_flag || not s.is_open)) [
      | inl over ↦ (s, rw (round, over) refl, valid)
      | inr going ↦ elim (Bool-cases (leb max_buffer_size s.conn.request_used)) [
        | inl full ↦ (s, rw (round, going, full) refl, valid)
        | inr room ↦
            let asked = max_buffer_size - s.conn.request_used in
            let (s', ran, done) =
              receive-IsValid reciever sender (read asked) s keeps keeps' valid
                (λ b e. omega (arith, valid.used, bounded asked b e)) in
            (s', rw (round, going, room) ran, done)
      ]
    ]

abbrev pub AllRead : List (ℕ → Option (List ℕ)) → Type 0
AllRead [] = Unit
AllRead (read ∷ reads) = IsRead read × AllRead reads

-- Let the callbacks return and leave the request as it is, and let every `read` give no more bytes than
-- it is asked for. Then any number of rounds ends without a fault; no byte is lost, doubled or moved:
-- the lines that were handled, each with its newline, followed by what waits in the buffer, are all
-- that was received; and no line that was handled has a newline in it.
pub rounds-IsValid :
    (reciever sender : Callback) (reads : List (ℕ → Option (List ℕ))) (s : Session)
    → Keeps reciever
    → Keeps sender
    → AllRead reads
    → IsValid s
    → (s' : Session) × (rounds reciever sender reads s ≡ ok s') × IsValid s'
rounds-IsValid reciever sender [] s keeps keeps' bounded valid = (s, refl, valid)
rounds-IsValid reciever sender (read ∷ reads) s keeps keeps' bounded valid =
    let (t, ran, valid') = round-IsValid reciever sender read s keeps keeps' bounded.0 valid in
    let (u, ran', valid'') = rounds-IsValid reciever sender reads t keeps keeps' bounded.1 valid' in
    (u, ap (λ r. r >>= rounds reciever sender reads) ran ∙ ran', valid'')

-- A connection whose buffer is full is never read again: after a round that leaves it full, no
-- further round changes anything.
pub rounds-full :
    (reciever sender : Callback) (reads : List (ℕ → Option (List ℕ))) (s : Session)
    → max_buffer_size ≤ s.conn.request_used
    → rounds reciever sender reads s ≡ ok s
unfolding round
rounds-full reciever sender [] s full = refl
rounds-full reciever sender (read ∷ reads) s full =
    let is_full : leb max_buffer_size s.conn.request_used ≡ true = ground (arith, full) in
    let once : round reciever sender read s ≡ ok s =
      elim (Bool-cases (s.exit_flag || not s.is_open)) [
        | inl over ↦ rw (round, over) refl
        | inr going ↦ rw (round, going, is_full) refl
      ] in
    ap (λ r. r >>= rounds reciever sender reads) once ∙ rounds-full reciever sender reads s full
