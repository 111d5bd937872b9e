-- ===== src/Tcp/Client.antt =====
-- The loop of `tcp_client_process` in tcp/src/tcp_process.c, on its connection: the replies are kept in
-- an array of their own. The callbacks leave `exit_flag` as it is.
use mathlib.Core.List.{append_assoc}
use mathlib.Core.Bool.{not}
use multiprocessor.Common.{
  Bool-cases, drop, Option-cases, write_at, find_byte, take, arith, ◌==◌, ◌∷◌, ◌≤◌, none, ◌-◌, ℕ,
  List, length-set, false, fault, Option, some, refl, inr, if◌then◌else◌, length, ◌≡◌, ok, Bool,
  true, ◌+◌, leb, ap, ◌∙◌, ◌++◌, [], set, ◌>>=◌, sym, inl, Run, ◌⊎◌,
}
use multiprocessor.Tcp.{max_buffer_size, shift}
use multiprocessor.Tcp.Lines.{unlines, unlines-append}
use multiprocessor.Tcp.Arrays.{
  find_byte-Found, take-write, length-write, drop-set, length-shift, take-append_le, length-drop,
}

-- The text of `request`, the array of `reply`, the lines that were taken out of it,
-- and all that `read` gave.
pub record Client : Type 0 where
  pub request : List ℕ
  pub reply : List ℕ
  pub reply_used : ℕ
  pub exit_flag : Bool
  pub lines : List (List ℕ)
  pub got : List ℕ

-- What a round meets: the request that the sender makes, how much of it `write` takes (`none` where it
-- fails), what `read` gives of the bytes that are asked for, and whether the receiver answers -1.
pub record Meets : Type 0 where
  pub request : List ℕ
  pub written : Option ℕ
  pub read : ℕ → Option (List ℕ)
  pub refused : Bool

-- What is done with the bytes in `reply`. The receiver gets them before it is looked at whether there
-- is a newline; without one, what is behind `NULL` is moved.
unfoldable pub handle_reply : (refused : Bool) → Client → Run Client
handle_reply refused c = elim (find_byte 10 c.reply_used c.reply) [
  | none ↦ if refused then ok c else fault
  | some endl ↦
      let ended = set c.reply endl 0 in
      if refused
      then ok (record c { reply = ended })
      else ok (record c {
        reply = shift (endl + 1) ended;
        reply_used = c.reply_used - (endl + 1);
        lines = c.lines ++ take endl c.reply ∷ [];
      })
]

abbrev pub receive_reply : (refused : Bool) → Option (List ℕ) → Client → Run (Client × Bool)
receive_reply refused none c = ok (record c { exit_flag = true }, false)
receive_reply refused (some []) c = ok (record c { exit_flag = true }, false)
receive_reply refused (some (b ∷ bytes)) c =
    handle_reply refused (record c {
      reply = write_at c.reply_used (b ∷ bytes) c.reply;
      reply_used = c.reply_used + length (b ∷ bytes);
      got = c.got ++ b ∷ bytes;
    })
    >>= λ c. ok (c, true)

-- Whether all of the request was written.
abbrev pub all_written : Meets → Bool
all_written m = elim m.written [ none ↦ false | some n ↦ n == length m.request ]

-- One round; `false` where the loop is left.
unfoldable pub client_round : Meets → Client → Run (Client × Bool)
unfolding handle_reply
client_round m c =
    let sent : Client = record c { request = m.request } in
    if not (all_written m)
    then ok (sent, false)
    else if leb max_buffer_size c.reply_used
    then ok (sent, true)
    else receive_reply m.refused (m.read (max_buffer_size - c.reply_used)) sent

-- Every byte that was received is in a line that was taken out, or waits, in the order of arrival.
pub record IsValid (c : Client) : Type 0 where
  pub size : length c.reply ≡ max_buffer_size
  pub used : c.reply_used ≤ max_buffer_size
  pub whole : unlines c.lines ++ take c.reply_used c.reply ≡ c.got

-- Whether the bytes have a newline decides: with one the line goes to the receiver, without one the
-- client is at fault.
handle_reply-cases :
    (c : Client)
    → IsValid c
    → ((find_byte 10 c.reply_used c.reply ≡ none) × (handle_reply false c ≡ fault))
      ⊎ ((c' : Client) × (handle_reply false c ≡ ok c') × IsValid c' × (c'.got ≡ c.got))
unfolding handle_reply
handle_reply-cases c valid = elim (Option-cases (find_byte 10 c.reply_used c.reply)) [
  | inl missing ↦ inl (missing, rw (handle_reply, missing) refl)
  | inr (endl, found) ↦
      let f = find_byte-Found 10 c.reply_used c.reply endl found in
      let ended = set c.reply endl 0 in
      let size : length ended ≡ max_buffer_size = length-set c.reply endl 0 ∙ valid.size in
      let left : take (c.reply_used - (endl + 1)) (shift (endl + 1) ended)
          ≡ take (c.reply_used - (endl + 1)) (drop (endl + 1) c.reply) =
        take-append_le (c.reply_used - (endl + 1)) (drop (endl + 1) ended)
          (drop (max_buffer_size - (endl + 1)) ended)
          (omega (arith, size, valid.used, length-drop (endl + 1) ended))
        ∙ ap (take (c.reply_used - (endl + 1))) (drop-set endl 0 c.reply) in
      inr (
        record c {
          reply = shift (endl + 1) ended;
          reply_used = c.reply_used - (endl + 1);
          lines = c.lines ++ take endl c.reply ∷ [];
        },
        rw (handle_reply, found) refl,
        record {
          size = length-shift (endl + 1) ended (omega (arith, f.inside, valid.used)) size;
          used = omega (arith, valid.used);
          whole =
              unlines-append c.lines (take endl c.reply)
                (take (c.reply_used - (endl + 1)) (shift (endl + 1) ended))
              ∙ ap (λ u. unlines c.lines ++ (take endl c.reply ++ 10 ∷ u)) left
              ∙ ap (λ u. unlines c.lines ++ u) (sym f.parts)
              ∙ valid.whole;
        },
        refl,
      )
]

receive_reply-cases :
    (bytes : Option (List ℕ)) (c : Client)
    → IsValid c
    → ((b : List ℕ) → bytes ≡ some b → c.reply_used + length b ≤ max_buffer_size)
    → (receive_reply false bytes c ≡ fault)
      ⊎ ((c' : Client) × (goes_on : Bool) × (receive_reply false bytes c ≡ ok (c', goes_on))
          × IsValid c')
receive_reply-cases none c valid room = inr (
  record c { exit_flag = true },
  false,
  refl,
  record { size = valid.size; used = valid.used; whole = valid.whole },
)
receive_reply-cases (some []) c valid room = inr (
  record c { exit_flag = true },
  false,
  refl,
  record { size = valid.size; used = valid.used; whole = valid.whole },
)
receive_reply-cases (some (b ∷ bytes)) c valid room =
    let new = b ∷ bytes in
    let fits = room new refl in
    let t : Client = record c {
      reply = write_at c.reply_used new c.reply;
      reply_used = c.reply_used + length new;
      got = c.got ++ new;
    } in
    let put = take-write c.reply_used new c.reply (omega (arith, valid.size, valid.used)) in
    let valid' : IsValid t = record {
      size = length-write c.reply_used new c.reply (omega (arith, valid.size, fits)) ∙ valid.size;
      used = fits;
      whole =
          ap (λ u. unlines c.lines ++ u) put
          ∙ sym (append_assoc (unlines c.lines) (take c.reply_used c.reply) new)
          ∙ ap (λ u. u ++ new) valid.whole;
    } in
    elim (handle_reply-cases t valid') [
      | inl (missing, faulty) ↦ inl (ap (λ r. r >>= λ c. ok (c, true)) faulty)
      | inr (c', ran, done, _) ↦ inr (c', true, ap (λ r. r >>= λ c. ok (c, true)) ran, done)
    ]

-- Let `read` give no more bytes than are asked for, and the receiver not refuse. Then a round ends
-- with a fault, or with every byte that was received in a line that was taken out or waiting, in the
-- order of arrival.
pub client_round-IsValid :
    (m : Meets) (c : Client)
    → IsValid c
    → m.refused ≡ false
    → ((n : ℕ) (bytes : List ℕ) → m.read n ≡ some bytes → length bytes ≤ n)
    → (client_round m c ≡ fault)
      ⊎ ((c' : Client) × (goes_on : Bool) × (client_round m c ≡ ok (c', goes_on)) × IsValid c')
unfolding client_round
client_round-IsValid m c valid going bounded =
    let sent : Client = record c { request = m.request } in
    let valid' : IsValid sent = record {
      size = valid.size;
      used = valid.used;
      whole = valid.whole;
    } in
    elim (Bool-cases (all_written m)) [
      | inr short ↦ inr (sent, false, rw (client_round, short) refl, valid')
      | inl whole ↦ elim (Bool-cases (leb max_buffer_size c.reply_used)) [
        | inl full ↦ inr (sent, true, rw (client_round, whole, full) refl, valid')
        | inr room ↦
            let asked = max_buffer_size - c.reply_used in
            elim (receive_reply-cases (m.read asked) sent valid'
              (λ b e. omega (arith, valid.used, bounded asked b e))) [
                | inl faulty ↦ inl (rw (client_round, whole, room, going) faulty)
                | inr (c', goes_on, ran, done) ↦
                    inr (c', goes_on, rw (client_round, whole, room, going) ran, done)
              ]
      ]
    ]
