-- ===== src/Node/Process.antt =====
-- node/client.go, node/utils.go: the input loop, the reset of a client and the checks before a command.
pub mod Input
pub mod Checks
pub mod Inline
use go_mock_redis.Base.{
  ℕ, zero, suc, ◌+◌, ◌-◌, ◌≡◌, refl, Bool, true, false, not, ◌&&◌, ◌||◌, List, [], ◌∷◌, ◌++◌, map,
  arith, Bytes, codes, ltb, leb, ◌==◌, if◌then◌else◌, Option, none, some, length, take, drop, Run,
  ok, fault, Fault, ◌>>=◌,
}
use go_mock_redis.Base.Tests.{bytes_eq}
use go_mock_redis.Base.Text.{to_upper, equal_fold}
use go_mock_redis.Base.Words.{has_bit, set_bit, clear_bit}
use go_mock_redis.Db.Memory.{word64}
use go_mock_redis.Db.Hash.{Key, bytes_key}
use go_mock_redis.Db.Dict
use go_mock_redis.Db.Dict.{HashTable, at}
use go_mock_redis.Db.Object.{RedisObj}
use go_mock_redis.Node.Flags
use go_mock_redis.Node.Flags.{
  ClientFlag, has, bit, blocked, pending_command, close_after_reply, close_asap, multi,
  executing_command, asking, tracking_caching, reply_skip, reply_skip_next, master,
}
use go_mock_redis.Node.Client.{
  Client, as_string, add_reply_error, add_reply_error_object, exec_command_abort,
  shared_no_auth_err,
}
use go_mock_redis.Node.Command
use go_mock_redis.Node.Command.{Command, Arity, exactly, at_least, no_auth, no_multi, protected}

pub data ProtoType : Type 0 where
  unknown inline multi_bulk : ProtoType

-- A client with the fields that the input and the checks use. -1 is the bit pattern of an int.
pub record Session : Type 0 where
  pub client : Client
  pub query_buf : Bytes
  pub query_pos : ℕ
  pub cmd : Option Command
  pub last_cmd : Option Command
  pub real_cmd : Option Command
  pub req_type : ProtoType
  pub multi_bulk_len : ℕ
  pub bulk_len : ℕ
  pub slot : ℕ
  pub duration : ℕ
  pub repl_applied : ℕ
  pub authenticated : Bool

abbrev pub minus_one : ℕ
minus_one = word64 - 1

-- `c.flags &= ^F` and `c.flags |= F`
abbrev pub without : ClientFlag → Session → Session
without f s = record s { client = record s.client { flags = clear_bit s.client.flags (bit f) } }

abbrev pub having : ClientFlag → Session → Session
having f s = record s { client = record s.client { flags = set_bit s.client.flags (bit f) } }

-- Outside MULTI the flag is dropped after every command but one; without a command this is a call of a
-- method of nil.
unfoldable pub drop_unless : ClientFlag → Bytes → Session → Run Session
unfolding has bit bytes_eq
drop_unless f name s = if has s.client.flags multi then ok s else elim s.cmd [
  | none ↦ fault Fault.nil_pointer
  | some prev ↦ ok (if bytes_eq prev.full_name name then s else without f s)
]

unfoldable pub reset_client : Session → Run Session
unfolding drop_unless
reset_client s = do
  let s₁ =
      without executing_command (record s {
        req_type = unknown;
        multi_bulk_len = 0;
        bulk_len = minus_one;
        slot = minus_one;
      })
  s₂ ← drop_unless asking (codes "asking") s₁
  s₃ ← drop_unless tracking_caching (codes "client") s₂
  let s₄ = without reply_skip s₃
  ok (
      if has s₄.client.flags reply_skip_next
      then without reply_skip_next (having reply_skip s₄)
      else s₄)

-- `mapChars`, for the two characters of the line end that become spaces.
unfoldable pub map_chars : Bytes → Bytes
map_chars = map (λ a. if (a == 13) || (a == 10) then 32 else a)

-- A command that has been rejected once more.
abbrev pub rejected : Command → Command
rejected cmd = record cmd { rejected_calls = cmd.rejected_calls + 1 }

-- The end of `rejectCommand` and `rejectCommandStr`: with no command nothing is sent.
unfoldable pub reject_command : RedisObj → Session → Run Session
unfolding as_string exec_command_abort add_reply_error_object bytes_eq
reject_command reply s = elim s.cmd [
  | none ↦ ok (record s { duration = 0 })
  | some cmd ↦ do
    c ←
        (if bytes_eq cmd.full_name (codes "ExecCommand")
          then (do text ← as_string reply.value; exec_command_abort s.client text)
          else add_reply_error_object s.client reply)
    ok (record s { duration = 0; cmd = some (rejected cmd); client = c })
]

unfoldable pub reject_command_str : Bytes → Session → Run Session
unfolding exec_command_abort add_reply_error bytes_eq
reject_command_str reply s = elim s.cmd [
  | none ↦ ok (record s { duration = 0 })
  | some cmd ↦ do
    c ←
        (if bytes_eq cmd.full_name (codes "ExecCommand")
          then exec_command_abort s.client reply
          else add_reply_error s.client reply)
    ok (record s { duration = 0; cmd = some (rejected cmd); client = c })
]

-- `rejectCommandFormat`, from the text that `fmt.Sprintf` has made.
unfoldable pub reject_command_format : Bytes → Session → Run Session
unfolding map_chars reject_command_str
reject_command_format text s = reject_command_str (map_chars text) s
