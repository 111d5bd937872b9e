-- ===== src/CommandServer.antt =====
-- command_server/src/command_server.c: the queue of commands, on the ring of misc/src/ring_buffer.c, and
-- the thread that executes them. A text is the list of its codes.
pub mod Queue
pub mod Execution
mod Tests
use multiprocessor.Api.{codes}
use multiprocessor.Common.{
  same_nocase, if◌then◌else◌, blocked, ◌-◌, ◌>>=◌, ◌||◌, none, ltb, some, true, ok, ◌++◌, [],
  Option, fault, length, Run, ◌+◌, Bool, ◌∷◌, false, ℕ, List, ◌==◌,
}
use multiprocessor.RingBuffer
use multiprocessor.RingBuffer.{Ring}

-- `COMMAND_QUEUE_SIZE` and `COMMAND_BUF_LEN`.
abbrev pub command_queue_size : ℕ
command_queue_size = 20

abbrev pub command_buf_len : ℕ
command_buf_len = 512

-- `pdesc`: no pipeline yet, one, or one that was destroyed and to which the pointer still points.
pub data Pdesc : Type 0 where
  none_yet : Pdesc
  running : Pdesc
  destroyed : Pdesc

-- The statics of the file, the commands by their address, and the commands that were executed.
pub record Server : Type 0 where
  pub cmd_ring : Ring
  pub command_ready : ℕ
  pub full_command : ℕ → List ℕ
  pub pdesc : Pdesc
  pub exit_flag : Bool
  pub executed : List (List ℕ)

-- `command_server_init`: the ring is made with 0 for `empty`. `none` where it cannot be made.
unfoldable pub command_server_init : (allocated sem_ready : Bool) → Option Server
unfolding RingBuffer.create
command_server_init allocated sem_ready =
    elim (RingBuffer.create allocated sem_ready command_queue_size false) [
      | none ↦ none
      | some ring ↦ some (record {
        cmd_ring = ring;
        command_ready = 0;
        full_command = λ a. [];
        pdesc = none_yet;
        exit_flag = false;
        executed = [];
      })
    ]

-- `push_new_command`: `address` is what `malloc` gives, 0 for `NULL`. The length is taken from the byte
-- before the text on, the last one of `fd`, which `memset` cleared: it is 0, and a newline at the
-- text's end stays.
unfoldable pub push_new_command : (address : ℕ) → (request : List ℕ) → Server → Run Server
unfolding RingBuffer.push
push_new_command address request s =
    let pushed = RingBuffer.push address s.cmd_ring >>= λ ring. ok (record s {
      cmd_ring = ring;
      command_ready = s.command_ready + 1;
      full_command = λ a. if a == address then request else s.full_command a;
    }) in
    if address == 0 then fault else if ltb (length request) command_buf_len then pushed else fault

-- `pop_next_command`.
unfoldable pub pop_next_command : Server → Run (ℕ × Server)
unfolding RingBuffer.pop
pop_next_command s =
    if s.command_ready == 0
    then blocked
    else RingBuffer.pop s.cmd_ring >>= λ r.
        ok (r.0, record s { cmd_ring = r.1; command_ready = s.command_ready - 1 })

-- A word, with a newline or without.
abbrev pub is_word : (word text : List ℕ) → Bool
is_word word text = same_nocase text (word ++ 10 ∷ []) || same_nocase text word

-- `pipeline_destroy`, where there is a pipeline.
abbrev pub destroy_pipeline : Server → Run Server
destroy_pipeline s = elim s.pdesc [
  | none_yet ↦ ok s
  | running ↦ ok (record s { pdesc = destroyed })
  | destroyed ↦ fault
]

-- What a command meets: whether `pipeline_init` gives a pipeline, and how many bytes the word has that is
-- typed in the server's terminal; `none` where nothing is typed.
pub record Around : Type 0 where
  pub starts : Bool
  pub typed : Option ℕ

abbrev pub start_pipeline : Around → Server → Server
start_pipeline around s = record s { pdesc = if around.starts then running else none_yet }

-- `scanf("%s", fname)` waits for a word; one that does not fit into `fname` with its end is written behind
-- it.
abbrev pub name_fits : Option ℕ → Bool
name_fits none = false
name_fits (some n) = ltb n 255

abbrev pub configure : (typed : Option ℕ) → Around → Server → Run Server
configure none around s = blocked
configure (some n) around s = if ltb n 255 then ok (start_pipeline around s) else fault

-- `executeAPICommand`.
unfoldable pub execute_command : Around → (cmd : List ℕ) → Server → Run Server
execute_command around cmd s =
    if is_word (codes "STOP") cmd || is_word (codes "S") cmd
    then destroy_pipeline (record s { exit_flag = true })
    else if is_word (codes "INIT") cmd || is_word (codes "I") cmd
    then ok (start_pipeline around s)
    else if is_word (codes "CONFIG") cmd || is_word (codes "C") cmd
    then configure around.typed around s
    else ok s

-- A command that was popped: `NULL` is passed over.
unfoldable pub handle : (started : Around) → (address : ℕ) → Server → Run Server
unfolding execute_command
handle started address s =
    if address == 0
    then ok s
    else execute_command started (s.full_command address)
        (record s { executed = s.executed ++ s.full_command address ∷ [] })

-- One round of `command_thread`.
unfoldable pub round : (started : Around) → Server → Run Server
unfolding pop_next_command handle
round started s =
    let popped = pop_next_command s >>= λ r. handle started r.0 r.1 in
    if s.exit_flag then ok s else popped
