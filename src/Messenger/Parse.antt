-- ===== src/Messenger/Parse.antt =====
-- `parse_api_request` and `msg_get_connect_information` of messenger/src/messenger.c.
use mathlib.Core.Option
use multiprocessor.Common.{
  drop, same_nocase, has_nocase, c_string, false, true, Bool, ◌==◌, ℕ, some, length, ◌∷◌, fault,
  if◌then◌else◌, none, ok, List, [], Run, ◌+◌, ◌||◌, Option,
}
use multiprocessor.Api.{codes}
use multiprocessor.Messenger.{Message, MsgCmd, MsgType}
use multiprocessor.Messenger

-- One `if` of the function: a word, and the command that it stands for.
abbrev pub note_command : Bool → MsgCmd → List ℕ → Message → Message
note_command found cmd word m = if found then record m { cmd = cmd; cmd_len = length word } else m

-- The words, in the order of their `if`s; `QUIT` is behind them.
abbrev pub words : List (MsgCmd × List ℕ)
words =
    (Messenger.connect, codes "CONNECT")
    ∷ (Messenger.start, codes "START")
    ∷ (Messenger.stop, codes "STOP")
    ∷ (Messenger.status, codes "STATUS")
    ∷ (Messenger.set_values, codes "SET")
    ∷ (Messenger.get_values, codes "GET")
    ∷ (Messenger.config, codes "CONFIG")
    ∷ []

abbrev pub note_words : List ℕ → List (MsgCmd × List ℕ) → Message → Message
note_words text [] m = m
note_words text ((cmd, word) ∷ rules) m =
    note_words text rules (note_command (has_nocase word text) cmd word m)

abbrev pub is_reply : List ℕ → Bool
is_reply text = has_nocase (codes "RE") text || has_nocase (codes "ER") text

abbrev pub is_quit : List ℕ → Bool
is_quit text =
    has_nocase (codes "QUIT") text
    || same_nocase text (codes "Q")
    || same_nocase text (b'Q' ∷ 10 ∷ [])

abbrev pub note_type : Bool → Message → Message
note_type true m = record m { type = Messenger.reply; cmd_len = 2 }
note_type false m = record m { type = Messenger.request }

-- The `if`s one behind the other, on the text of the message.
unfoldable pub parse_text : List ℕ → Message → Message
parse_text text m =
    note_command (is_quit text) Messenger.quit (codes "QUIT")
      (note_words text words (note_type (is_reply text) m))

-- `parse_api_request`: a text without its end is read past the message.
unfoldable pub parse_api_request : Message → Run Message
unfolding parse_text
parse_api_request m =
    if m.msg_len == 0
    then ok m
    else elim (c_string m.msg_string) [ none ↦ fault | some text ↦ ok (parse_text text m) ]

-- `strrchr(result, ' ')`: the texts before and behind the last blank.
abbrev pub cut_last_blank : List ℕ → Option (List ℕ × List ℕ)
cut_last_blank [] = none
cut_last_blank (c ∷ cs) = elim (cut_last_blank cs) [
  | none ↦ if c == b' ' then some ([], cs) else none
  | some (before, behind) ↦ some (c ∷ before, behind)
]

-- All but the last byte; `none` for an empty text, whose last byte would stand before it.
abbrev pub but_last : List ℕ → Option (List ℕ)
but_last [] = none
but_last (c ∷ []) = some []
but_last (c ∷ d ∷ cs) = Option.map (λ t. c ∷ t) (but_last (d ∷ cs))

-- `msg_get_connect_information`: `none` where it returns -1, or the host and the port.
unfoldable pub get_connect_information : Message → Run (Option (List ℕ × List ℕ))
get_connect_information m = elim (c_string (drop (m.cmd_len + 1) m.msg_string)) [
  | none ↦ fault
  | some result ↦ elim (cut_last_blank result) [
    | none ↦ ok none
    | some (host, port) ↦ elim (but_last port) [ none ↦ fault | some port ↦ ok (some (host, port)) ]
  ]
]
