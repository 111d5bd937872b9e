-- ===== src/Messenger/Information.antt =====
-- What `msg_get_connect_information` of messenger/src/messenger.c reads of a command's text.
use multiprocessor.Messenger.Extract.{c_string-append}
use multiprocessor.LinkedList.Rings.{count-append}
use mathlib.Core.List.{append_assoc}
use multiprocessor.Common.{
  drop, ok, ◌++◌, [], List, ap, ◌∷◌, count, suc, length, refl, ◌==◌, ℕ, ◌≡◌, ◌+◌, arith, none,
  false, some, ◌∙◌,
}
use mathlib.Core.Option
use multiprocessor.Messenger.{Message}
use multiprocessor.Messenger.Parse.{get_connect_information, cut_last_blank, but_last}

drop-append :
    (word : List ℕ) (c : ℕ) (rest : List ℕ) → drop (length word + 1) (word ++ c ∷ rest) ≡ rest
drop-append [] c rest = refl
drop-append (w ∷ word) c rest =
    let shorter : suc (length word) + 1 ≡ suc (length word + 1) = omega arith in
    ap (λ n. drop n (w ∷ word ++ c ∷ rest)) shorter ∙ drop-append word c rest

cut_none : (text : List ℕ) → count b' ' text ≡ 0 → cut_last_blank text ≡ none
cut_none [] free = refl
cut_none (c ∷ text) free =
    let other : (c == b' ') ≡ false = ground (arith, free) in
    rw (cut_none text (omega (arith, free)), other) refl

cut_lem :
    (host text : List ℕ)
    → count b' ' text ≡ 0
    → cut_last_blank (host ++ b' ' ∷ text) ≡ some (host, text)
cut_lem [] text free = rw (cut_none text free) refl
cut_lem (c ∷ host) text free = rw (cut_lem host text free) refl

but_last-append : (text : List ℕ) (c : ℕ) → but_last (text ++ c ∷ []) ≡ some text
but_last-append [] c = refl
but_last-append (d ∷ []) c = refl
but_last-append (d ∷ e ∷ text) c = ap (Option.map (λ t. d ∷ t)) (but_last-append (e ∷ text) c)

-- The host may have blanks, the port may not, and neither has a byte 0.
pub record Named (host port : List ℕ) : Type 0 where
  pub host_text : count 0 host ≡ 0
  pub port_text : count 0 port ≡ 0
  pub port_word : count b' ' port ≡ 0

-- A command's word, one more byte, a host, a blank, a port, and the newline: the host and the port are
-- read back, whatever lies behind the text's end.
pub get_connect_information_lem :
    (m : Message) (word host port more : List ℕ) (c : ℕ)
    → Named host port
    → m.cmd_len ≡ length word
    → m.msg_string ≡ word ++ c ∷ (host ++ b' ' ∷ (port ++ 10 ∷ [])) ++ 0 ∷ more
    → get_connect_information m ≡ ok (some (host, port))
unfolding get_connect_information
get_connect_information_lem m word host port more c named len string =
    let line = host ++ b' ' ∷ (port ++ 10 ∷ []) in
    let rest : drop (m.cmd_len + 1) m.msg_string ≡ line ++ 0 ∷ more =
      rw (len, string)
        (ap (drop (length word + 1)) (append_assoc word (c ∷ line) (0 ∷ more))
          ∙ drop-append word c (line ++ 0 ∷ more)) in
    let no_zero : count 0 line ≡ 0 = ground (
      arith,
      named.host_text,
      named.port_text,
      count-append 0 host (b' ' ∷ (port ++ 10 ∷ [])),
      count-append 0 port (10 ∷ []),
    ) in
    let no_blank : count b' ' (port ++ 10 ∷ []) ≡ 0 =
      ground (arith, named.port_word, count-append b' ' port (10 ∷ [])) in
    rw
      (
        get_connect_information,
        rest,
        c_string-append line more no_zero,
        cut_lem host (port ++ 10 ∷ []) no_blank,
        but_last-append port 10,
      )
      refl
