-- ===== src/Messenger/Extract.antt =====
-- Which messages `connection_extract_message` of messenger/src/messenger.c finds in what a connection
-- receives.
use multiprocessor.Api.{codes}
use mathlib.Core.Path.{subst}
use mathlib.Core.Option.{none-ne-some}
use multiprocessor.Common.{
  write_at, has_nocase, drop, take, c_string, find_byte, Run, ◌>>=◌, fault, Bool, leb, ◌-◌, ok, ◌+◌,
  Option-cases, some-injective, ◌≡◌, inr, suc, ◌∷◌, refl, ◌<◌, inl, set, length, none, ◌==◌, true,
  arith, sym, ℕ, List, zero, [], false, ◌⊎◌, ◌++◌, count, Bool-cases, Option, some, ap, ◌∙◌,
}
use multiprocessor.Messenger
use multiprocessor.Messenger.{MsgCmd, Message, Connection, MsgType, max_msg_len}
use multiprocessor.Messenger.Parse.{
  is_reply, words, note_type, note_words, is_quit, parse_api_request, parse_text, note_command,
}
use multiprocessor.Messenger.Receive.{received, read_connection_data, extract_message}

-- A line without a newline and without a byte 0.
pub record Line (line : List ℕ) : Type 0 where
  pub no_newline : count 10 line ≡ 0
  pub no_zero : count 0 line ≡ 0

pub find_byte-append :
    (line more : List ℕ) (n : ℕ)
    → count 10 line ≡ 0
    → length line < n
    → find_byte 10 n (line ++ 10 ∷ more) ≡ some (length line)
find_byte-append line more zero free enough = absurd (omega (arith, enough))
find_byte-append [] more (suc n) free enough = refl
find_byte-append (c ∷ line) more (suc n) free enough =
    let other : (c == 10) ≡ false = ground (arith, free) in
    rw (other, find_byte-append line more n (omega (arith, free)) (omega (arith, enough))) refl

find_byte-free : (b n : ℕ) (xs : List ℕ) → count b (take n xs) ≡ 0 → find_byte b n xs ≡ none
find_byte-free b zero xs free = refl
find_byte-free b (suc n) [] free = refl
find_byte-free b (suc n) (x ∷ xs) free =
    let other : (x == b) ≡ false = ground (arith, free) in
    rw (other, find_byte-free b n xs (omega (arith, free))) refl

pub set-append :
    (line : List ℕ) (x v : ℕ) (more : List ℕ)
    → set (line ++ x ∷ more) (length line) v ≡ line ++ v ∷ more
set-append [] x v more = refl
set-append (c ∷ line) x v more = ap (λ t. c ∷ t) (set-append line x v more)

pub c_string-append :
    (line more : List ℕ) → count 0 line ≡ 0 → c_string (line ++ 0 ∷ more) ≡ some line
c_string-append [] more free = refl
c_string-append (c ∷ line) more free =
    let other : (c == 0) ≡ false = ground (arith, free) in
    rw (other, c_string-append line more (omega (arith, free))) refl

-- The byte that ends a text, and the text, where there is more of the array.
record Ends (c : ℕ) (cs line : List ℕ) : Type 0 where
  pub rest : List ℕ
  pub nonzero : (c == 0) ≡ false
  pub inner : c_string cs ≡ some rest
  pub whole : line ≡ c ∷ rest

c_string-cases :
    (c : ℕ) (cs line : List ℕ)
    → c_string (c ∷ cs) ≡ some line
    → (((c == 0) ≡ true) × (line ≡ [])) ⊎ Ends c cs line
c_string-cases c cs line e = elim (Bool-cases (c == 0)) [
  | inl end ↦ inl (end, some-injective (sym e ∙ rw end refl))
  | inr other ↦ elim (Option-cases (c_string cs)) [
    | inl missing ↦ absurd (none-ne-some line (sym (rw (other, missing) refl) ∙ e))
    | inr (rest, inner) ↦ inr (record {
      rest = rest;
      nonzero = other;
      inner = inner;
      whole = some-injective (sym e ∙ rw (other, inner) refl);
    })
  ]
]

found_later :
    (x n : ℕ) (xs : List ℕ) (endl : ℕ)
    → (x == 10) ≡ false
    → find_byte 10 (suc n) (x ∷ xs) ≡ some endl
    → (e : ℕ) × (find_byte 10 n xs ≡ some e) × (endl ≡ suc e)
found_later x n xs endl other found = elim (Option-cases (find_byte 10 n xs)) [
  | inl missing ↦ absurd (none-ne-some endl (sym (rw (other, missing) refl) ∙ found))
  | inr (e, later) ↦ (e, later, some-injective (sym found ∙ rw (other, later) refl))
]

-- Ending a later line changes nothing of the first one.
c_string-set :
    (xs line : List ℕ) (n endl : ℕ)
    → c_string xs ≡ some line
    → count 10 line ≡ 0
    → find_byte 10 n xs ≡ some endl
    → c_string (set xs endl 0) ≡ some line
c_string-set [] line n endl e free found = absurd (none-ne-some line e)
c_string-set (x ∷ xs) line zero endl e free found = absurd (none-ne-some endl found)
c_string-set (x ∷ xs) line (suc n) endl e free found = elim (c_string-cases x xs line e) [
  | inl (end, empty) ↦
      let other : (x == 10) ≡ false = ground arith in
      let (k, later, at_later) = found_later x n xs endl other found in
      rw (at_later, end, empty) refl
  | inr ends ↦
      let free' : count 10 (x ∷ ends.rest) ≡ 0 = subst (λ t. count 10 t ≡ 0) ends.whole free in
      let other : (x == 10) ≡ false = ground (arith, free') in
      let (k, later, at_later) = found_later x n xs endl other found in
      let inner = c_string-set xs ends.rest n k ends.inner (omega (arith, free')) later in
      rw (at_later, ends.nonzero, inner, ends.whole) refl
]

-- Neither do bytes that come behind it.
c_string-write :
    (xs line new : List ℕ) (i : ℕ)
    → c_string xs ≡ some line
    → length line < i
    → c_string (write_at i new xs) ≡ some line
c_string-write [] line new i e behind = absurd (none-ne-some line e)
c_string-write (x ∷ xs) line new zero e behind = absurd (omega (arith, behind))
c_string-write (x ∷ xs) line new (suc i) e behind = elim (c_string-cases x xs line e) [
  | inl (end, empty) ↦ rw (end, empty) refl
  | inr ends ↦
      let inner =
        c_string-write xs ends.rest new i ends.inner
          (omega (arith, behind, ap length ends.whole)) in
      let next : suc i + length new ≡ suc (i + length new) = omega arith in
      let shifted : drop (suc i + length new) (x ∷ xs) ≡ drop (i + length new) xs =
        ap (λ k. drop k (x ∷ xs)) next in
      rw (shifted, ends.nonzero, inner, ends.whole) refl
]

-- The first line stands in the connection's buffer, ended by a byte 0, and more was received.
pub record Kept (line : List ℕ) (conn : Connection) : Type 0 where
  pub first : c_string conn.buffer ≡ some line
  pub behind : length line < conn.offset

pub record SameText (m m' : Message) : Type 0 where
  pub string : m'.msg_string ≡ m.msg_string
  pub len : m'.msg_len ≡ m.msg_len

note-SameText :
    (found : Bool) (cmd : MsgCmd) (word : List ℕ) (m m' : Message)
    → SameText m m'
    → SameText m (note_command found cmd word m')
note-SameText true cmd word m m' same = record { string = same.string; len = same.len }
note-SameText false cmd word m m' same = same

type-SameText : (found : Bool) (m : Message) → SameText m (note_type found m)
type-SameText true m = record { string = refl; len = refl }
type-SameText false m = record { string = refl; len = refl }

words-SameText :
    (text : List ℕ) (rules : List (MsgCmd × List ℕ)) (m m' : Message)
    → SameText m m'
    → SameText m (note_words text rules m')
words-SameText text [] m m' same = same
words-SameText text ((cmd, word) ∷ rules) m m' same =
    words-SameText text rules m (note_command (has_nocase word text) cmd word m')
      (note-SameText (has_nocase word text) cmd word m m' same)

parse_text-SameText : (text : List ℕ) (m : Message) → SameText m (parse_text text m)
unfolding parse_text
parse_text-SameText text m =
    note-SameText (is_quit text) Messenger.quit (codes "QUIT") m
      (note_words text words (note_type (is_reply text) m))
      (words-SameText text words m (note_type (is_reply text) m) (type-SameText (is_reply text) m))

pub ok-injective {ℓ} : {A : Type ℓ} {a b : A} → ok a ≡ ok b → a ≡ b
ok-injective e = cc e

pub parse-SameText :
    (text : List ℕ) (m : Message)
    → c_string m.msg_string ≡ some text
    → (m' : Message) × (parse_api_request m ≡ ok m') × SameText m m'
unfolding parse_api_request
parse-SameText text m e = elim (Bool-cases (m.msg_len == 0)) [
  | inl empty ↦ (m, rw empty refl, record { string = refl; len = refl })
  | inr other ↦ (parse_text text m, rw (other, e) refl, parse_text-SameText text m)
]

pub parse-cases :
    (m : Message)
    → (parse_api_request m ≡ fault)
      ⊎ ((m' : Message) × (parse_api_request m ≡ ok m') × SameText m m')
unfolding parse_api_request
parse-cases m = elim (Bool-cases (m.msg_len == 0)) [
  | inl empty ↦ inr (m, rw empty refl, record { string = refl; len = refl })
  | inr other ↦ elim (Option-cases (c_string m.msg_string)) [
    | inl unended ↦ inl (rw (other, unended) refl)
    | inr (text, ended) ↦ inr (parse-SameText text m ended)
  ]
]

received-Kept :
    (line : List ℕ) (bytes : Option (List ℕ)) (conn : Connection)
    → Kept line conn
    → Kept line (received bytes conn).0
received-Kept line none conn kept = kept
received-Kept line (some []) conn kept = kept
received-Kept line (some (b ∷ bytes)) conn kept = record {
  first = c_string-write conn.buffer line (b ∷ bytes) conn.offset kept.first kept.behind;
  behind = omega (arith, kept.behind);
}

pub read-Kept :
    (line : List ℕ) (read : ℕ → Option (List ℕ)) (conn : Connection)
    → Kept line conn
    → Kept line (read_connection_data read conn).0
unfolding read_connection_data
read-Kept line read conn kept = elim (Bool-cases (leb 513 conn.offset)) [
  | inl full ↦ rw full kept
  | inr room ↦ rw room (received-Kept line (read (513 - conn.offset)) conn kept)
]

-- A message that is a line, by its length and its first bytes.
pub record Says (line : List ℕ) (m : Message) : Type 0 where
  pub len : m.msg_len ≡ length line
  pub string : take (length line) m.msg_string ≡ line

take-append : (line more : List ℕ) → take (length line) (line ++ more) ≡ line
take-append [] more = refl
take-append (c ∷ line) more = ap (λ t. c ∷ t) (take-append line more)

-- What is copied of a buffer that holds a line.
abbrev pub copied : List ℕ → Message → Message
copied line m = record m {
  type = Messenger.request;
  msg_len = length line;
  msg_string = write_at 0 line m.msg_string;
}

pub copied-Says : (line : List ℕ) (m m' : Message) → SameText (copied line m) m' → Says line m'
copied-Says line m m' same = record {
  len = same.len;
  string = rw same.string (take-append line (drop (0 + length line) m.msg_string));
}

pub extract-eq :
    (line : List ℕ) (endl : ℕ) (conn : Connection) (m : Message) (r : Run Message)
    → find_byte 10 conn.offset conn.buffer ≡ some endl
    → c_string (set conn.buffer endl 0) ≡ some line
    → parse_api_request (copied line m) ≡ r
    → extract_message conn m
      ≡ (r >>= λ m'. ok (record conn { buffer = set conn.buffer endl 0 }, m'))
unfolding extract_message
extract-eq line endl conn m r found holds parsed = rw (extract_message, found, holds, parsed) refl

-- Without a newline among the bytes that were received the code reads behind `NULL`.
pub extract-fault :
    (conn : Connection) (m : Message)
    → count 10 (take conn.offset conn.buffer) ≡ 0
    → extract_message conn m ≡ fault
unfolding extract_message
extract-fault conn m free =
    rw (extract_message, find_byte-free 10 conn.offset conn.buffer free) refl

-- Every message of a run is the same line.
abbrev pub AllSay : List ℕ → List Message → Type 0
AllSay line [] = Unit
AllSay line (m ∷ ms) = Says line m × AllSay line ms

pub record Extracted (line : List ℕ) (conn : Connection) (m : Message) : Type 0 where
  pub conn' : Connection
  pub m' : Message
  pub ran : extract_message conn m ≡ ok (conn', m')
  pub kept : Kept line conn'
  pub says : Says line m'

pub extract-cases :
    (line : List ℕ) (conn : Connection) (m : Message)
    → Kept line conn
    → count 10 line ≡ 0
    → (extract_message conn m ≡ fault) ⊎ Extracted line conn m
unfolding extract_message
extract-cases line conn m kept free = elim (Option-cases (find_byte 10 conn.offset conn.buffer)) [
  | inl missing ↦ inl (rw (extract_message, missing) refl)
  | inr (endl, found) ↦
      let holds = c_string-set conn.buffer line conn.offset endl kept.first free found in
      elim (parse-cases (copied line m)) [
        | inl faulty ↦ inl (extract-eq line endl conn m fault found holds faulty)
        | inr (m', parsed, same) ↦ inr (record {
          conn' = record conn { buffer = set conn.buffer endl 0 };
          m' = m';
          ran = extract-eq line endl conn m (ok m') found holds parsed;
          kept = record { first = holds; behind = kept.behind };
          says = copied-Says line m m' same;
        })
      ]
]
