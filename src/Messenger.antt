-- ===== src/Messenger.antt =====
-- messenger/src/messenger.c and messenger/include/messenger/messenger.h: connections, and the messages
-- that are read from them. A text is the list of its codes.
pub mod Parse
pub mod Receive
pub mod Extract
pub mod Repeats
pub mod Connect
pub mod Client
pub mod Sending
pub mod Information
pub mod Server
mod Tests
use mathlib.Core.Option
use multiprocessor.Common.{
  ◌==◌, ℕ, [], ◌||◌, some, ◌&&◌, true, Bool, ◌∷◌, none, if◌then◌else◌, leb, List, false, map, zero,
  suc, ◌+◌, Option,
}
use multiprocessor.Api.{codes}

-- `MAX_MSG_LEN`.
abbrev pub max_msg_len : ℕ
max_msg_len = 512

-- `enum MSG_TYPE` and `enum MSG_CMD`.
pub data MsgType : Type 0 where
  unknown : MsgType
  request : MsgType
  reply : MsgType

pub data MsgCmd : Type 0 where
  quit : MsgCmd
  status : MsgCmd
  set_values : MsgCmd
  get_values : MsgCmd
  start : MsgCmd
  stop : MsgCmd
  config : MsgCmd
  connect : MsgCmd

-- `struct message`, with the `max_msg_len` bytes of `msg_string`.
pub record Message : Type 0 where
  pub cmd : MsgCmd
  pub cmd_len : ℕ
  pub type : MsgType
  pub msg_len : ℕ
  pub msg_string : List ℕ

-- `struct connection`, with the `max_msg_len + 1` bytes of `buffer`.
pub record Connection : Type 0 where
  pub host : List ℕ
  pub service : List ℕ
  pub fd : ℕ
  pub offset : ℕ
  pub buffer : List ℕ
