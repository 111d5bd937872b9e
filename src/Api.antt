-- ===== src/Api.antt =====
-- api/src/api.c, api/include/api/api.h and api/src/api_parser.c: the commands of the server as
-- texts, made by the client's side and parsed by the server's. A text is the list of its codes.
pub mod Requests
mod Tests
use multiprocessor.Common.{
  ◌∷◌, ok, if◌then◌else◌, length, List, ◌++◌, ◌||◌, some, ℕ, Bool, [], Option, none, false, ◌==◌,
  Run, fault, ◌-◌, ◌&&◌, true, leb, ltb,
}
use Prim.Native.Char.{code}
use Prim.Native.String.{String}

abbrev pub codes : String → List ℕ
codes String.[] = []
codes (String.◌∷◌ c s) = code c ∷ codes s

-- `enum APICmdType` and `enum APICmdName`.
pub data CmdType : Type 0 where
  undefined : CmdType
  get : CmdType
  post : CmdType

pub data CmdName : Type 0 where
  uninited : CmdName
  init : CmdName
  status : CmdName
  grab : CmdName
  live : CmdName
  control : CmdName
  clean : CmdName
  stop : CmdName

-- A client's number: none below zero, the server at zero.
pub data Client : Type 0 where
  nobody : Client
  server : Client
  client : (n : ℕ) → Client

-- `apiCmdType` and `apiCmdName`.
abbrev pub cmd_type : CmdType → List ℕ
cmd_type undefined = codes "undefined"
cmd_type get = codes "get"
cmd_type post = codes "post"

abbrev pub cmd_name : CmdName → List ℕ
cmd_name uninited = codes "uninited"
cmd_name init = codes "restart"
cmd_name status = codes "status"
cmd_name grab = codes "grab"
cmd_name live = codes "live"
cmd_name control = codes "control"
cmd_name clean = codes "clean"
cmd_name stop = codes "stop"

abbrev pub is_uninited : CmdName → Bool
is_uninited uninited = true
is_uninited _ = false

abbrev pub is_empty : List ℕ → Bool
is_empty [] = true
is_empty (c ∷ cs) = false

abbrev pub has : ℕ → List ℕ → Bool
has c [] = false
has c (x ∷ xs) = c == x || has c xs

-- What `snprintf` writes for the client; `decimal` is `%d`.
abbrev pub client_part : (ℕ → List ℕ) → Client → List ℕ
client_part decimal nobody = []
client_part decimal server = codes "server/"
client_part decimal (client n) = codes "client/" ++ decimal n ++ codes "/"

-- `apiGenerateCommandString`; a missing text is an empty one. A text that the buffer has no room for
-- and a `value` with a `%`, which is used as a format, are faults.
unfoldable pub generate :
    (ℕ → List ℕ) → CmdType → CmdName → Client → (value additional : List ℕ) → Run (List ℕ)
generate decimal type name who value additional =
    let named = if is_uninited name then value else cmd_name name in
    let more = if is_empty additional then [] else b',' ∷ additional in
    let text = cmd_type type ++ codes ",/api/" ++ client_part decimal who ++ named ++ more in
    if is_uninited name && has b'%' value
    then fault
    else if ltb (length text) 1024
    then ok text
    else fault

-- `strncmp(text, prefix, strlen(prefix)) == 0`.
abbrev pub starts : (prefix text : List ℕ) → Bool
starts [] text = true
starts (p ∷ ps) [] = false
starts (p ∷ ps) (c ∷ cs) = p == c && starts ps cs

-- The text behind a prefix that it starts with.
abbrev pub behind : (prefix text : List ℕ) → Option (List ℕ)
behind [] text = some text
behind (p ∷ ps) [] = none
behind (p ∷ ps) (c ∷ cs) = if p == c then behind ps cs else none

-- The text behind the first comma.
abbrev pub behind_comma : List ℕ → Option (List ℕ)
behind_comma [] = none
behind_comma (c ∷ cs) = let rest = behind_comma cs in if c == b',' then some cs else rest

-- `/([^,]+)`: the text from the command's name on.
abbrev pub name_at : List ℕ → Option (List ℕ)
name_at (slash ∷ c ∷ cs) = if slash == b'/' then if c == b',' then none else some (c ∷ cs) else none
name_at _ = none

-- `(/client/[1-9])` and what is behind it, where it is followed by a name.
abbrev pub numbered : List ℕ → Option (ℕ × List ℕ)
numbered text = elim (behind (codes "/client/") text) [
  | none ↦ none
  | some [] ↦ none
  | some (d ∷ rest) ↦
      if leb b'1' d && leb d b'9'
      then elim (name_at rest) [ none ↦ none | some name ↦ some (d - b'0', name) ]
      else none
]

-- `cmdRegTemplate`: the number of the client, 0 where the group is not there, and the text from the
-- third group on. Anything may follow, so the rest of the template always matches.
unfoldable pub match_request : List ℕ → Option (ℕ × List ℕ)
match_request [] = none
match_request (c ∷ request) = if c == b',' then none else elim (behind_comma request) [
  | none ↦ none
  | some path ↦ elim (behind (codes "/api/") path) [
    | none ↦ none
    | some rest ↦ elim (numbered rest) [
      | some found ↦ some found
      | none ↦ elim (name_at rest) [ none ↦ none | some name ↦ some (0, name) ]
    ]
  ]
]

-- A reply: the letters and digits before the brace, the command whose number is printed (`none` for
-- the digit 0), and the text behind the commas.
pub record Reply : Type 0 where
  pub result : List ℕ
  pub number : Option CmdName
  pub text : List ℕ

-- `currCmd`, the exit flag, and the reply.
pub record Outcome : Type 0 where
  pub curr_cmd : CmdName
  pub exit_flag : Bool
  pub reply : Reply

-- The reply behind the `if` chain: `file` is `NULL` there, whatever the command.
abbrev pub no_file : Reply
no_file = record { result = codes "ER018"; number = none; text = codes "wrong 1st parameter" }

abbrev pub unknown : CmdName → Reply
unknown name = record { result = codes "ER00C"; number = some name; text = codes "unknown" }

-- The chain over the names, at a request that matches.
unfoldable pub dispatch : CmdName → Bool → (client_id : ℕ) → List ℕ → Outcome
dispatch curr exit_flag client_id name =
    if starts (codes "restart") name
    then record {
      curr_cmd = init;
      exit_flag = exit_flag;
      reply = if ltb 0 client_id then unknown init else no_file;
    }
    else if starts (codes "status") name
    then record { curr_cmd = status; exit_flag = exit_flag; reply = no_file }
    else if starts (codes "grab") name
    then record {
      curr_cmd = grab;
      exit_flag = exit_flag;
      reply = if ltb 0 client_id then no_file else unknown grab;
    }
    else if starts (codes "ctrl") name
    then record { curr_cmd = control; exit_flag = exit_flag; reply = unknown control }
    else if starts (codes "clean") name
    then record {
      curr_cmd = clean;
      exit_flag = exit_flag;
      reply =
          if ltb 0 client_id
          then record { result = codes "ER012"; number = some clean; text = codes "wrong command" }
          else no_file;
    }
    else if starts (codes "live") name
    then record {
      curr_cmd = live;
      exit_flag = exit_flag;
      reply = record {
        result = codes "ER017";
        number = some live;
        text = codes "wrong command live";
      };
    }
    else if starts (codes "stop") name
    then record {
      curr_cmd = stop;
      exit_flag = true;
      reply = record { result = codes "RE011"; number = some stop; text = codes "STOP command" };
    }
    else record {
      curr_cmd = curr;
      exit_flag = exit_flag;
      reply = record { result = codes "ER014"; number = some curr; text = codes "unknown command" };
    }

-- What follows the match of the template.
unfoldable pub respond : CmdName → Bool → Option (ℕ × List ℕ) → Outcome
unfolding dispatch
respond curr exit_flag none = record {
  curr_cmd = curr;
  exit_flag = exit_flag;
  reply = record { result = codes "ER012"; number = none; text = codes "wrong command" };
}
respond curr exit_flag (some (client_id, name)) = dispatch curr exit_flag client_id name

-- `executeAPICommand` of api/src/api_parser.c, where the template compiles.
unfoldable pub execute : CmdName → Bool → List ℕ → Outcome
unfolding match_request respond
execute curr exit_flag request = respond curr exit_flag (match_request request)
