-- ===== src/Node/Process/Checks/Unknown.antt =====
-- node/client.go: what a client hears of a command that does not exist or lacks arguments.
use go_mock_redis.Base.{
  ℕ, ◌≡◌, refl, true, false, [], ◌++◌, Bytes, codes, Option, none, some, ok, ◌>>=◌, drop,
}
use go_mock_redis.Base.Text.{equal_fold}
use go_mock_redis.Db.Hash.{bytes_key}
use go_mock_redis.Db.Dict.{HashTable, at}
use go_mock_redis.Db.Dict.Steps.{Models}
use go_mock_redis.Db.Dict.Tables.{get-Models}
use go_mock_redis.Db.Object.{RedisObj}
use go_mock_redis.Node.Client.{as_string}
use go_mock_redis.Node.Command.{Command}
use go_mock_redis.Node.Process.{Session, reject_command_str, map_chars}
use go_mock_redis.Node.Process.Checks.{
  process_command, describe_args, first_checks, lookup_command, command_check_existence,
  is_container_command_by_sds,
}

-- The client names a command that is not one of the names of web requests.
pub record Asks (s : Session) (name : Bytes) : Type 0 where
  pub argument : RedisObj
  pub is_there : at s.client.argv 0 ≡ ok argument
  pub text : as_string argument.value ≡ ok name
  pub no_host : equal_fold name (codes "host:") ≡ false
  pub no_post : equal_fold name (codes "post") ≡ false

module _ (render : ℕ → RedisObj → Bytes) {n : ℕ} {f : Bytes → Option Command}
    (commands : HashTable Bytes Command) (user_flags : ℕ) (valid : Models n f commands)
    (s : Session) (name : Bytes) (asks : Asks s name) (first : s.cmd ≡ none) where
  process_run :
      (s' : Session)
      → first_checks render commands s ≡ ok (s', true)
      → process_command render commands user_flags s ≡ ok (s', true)
  unfolding process_command
  process_run s' run =
      rw (asks.is_there, ◌>>=◌, asks.text, asks.no_host, asks.no_post, first, run) refl

  unknown_command :
      f name ≡ none
      → (err : Bytes) × (command_check_existence render commands none s.client.argv ≡ ok (some err))
  unfolding command_check_existence is_container_command_by_sds
  unknown_command gone = (
    map_chars (
        codes "unknown command '"
        ++ render 128 asks.argument
        ++ codes "', with args beginning with: "
        ++ describe_args render (drop 1 s.client.argv) []),
    rw (asks.is_there, ◌>>=◌, asks.text, get-Models commands name valid, gone) refl,
  )

  -- A client without a current command that names a command that does not exist, and not `host:`
  -- or `post`, is sent nothing: `processCommand` returns true and changes only the commands and
  -- the duration of the client.
  pub process_command-unknown :
      f name ≡ none
      → process_command render commands user_flags s
        ≡ ok (record s { cmd = none; last_cmd = none; real_cmd = none; duration = 0 }, true)
  unfolding first_checks lookup_command reject_command_str
  process_command-unknown gone =
      let (err, missing) = unknown_command gone in
      process_run (record s { cmd = none; last_cmd = none; real_cmd = none; duration = 0 })
        (rw (asks.is_there, ◌>>=◌, asks.text, get-Models commands name valid, gone, missing) refl)
