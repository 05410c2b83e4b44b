-- ===== src/Node/Process/Checks.antt =====
-- node/client.go: the lookup of a command and `processCommand`.
pub mod Unknown
use go_mock_redis.Base.{
  ℕ, zero, suc, ◌+◌, ◌-◌, ◌^◌, ◌≤◌, ◌≡◌, refl, Bool, true, false, not, ◌&&◌, ◌||◌, List, [], ◌∷◌,
  ◌++◌, map, arith, Bytes, codes, ltb, leb, ◌==◌, if◌then◌else◌, Option, none, some, length, take,
  drop, Run, ok, fault, Fault, ◌>>=◌,
}
use go_mock_redis.Base.Tests.{bytes_eq}
use go_mock_redis.Base.Text.{to_upper, equal_fold}
use go_mock_redis.Base.Words.{has_bit}
use go_mock_redis.Db.Hash.{Key, bytes_key}
use go_mock_redis.Db.Dict
use go_mock_redis.Db.Dict.{HashTable, at}
use go_mock_redis.Db.Object.{RedisObj}
use go_mock_redis.Node.Flags
use go_mock_redis.Node.Flags.{multi}
use go_mock_redis.Node.Client.{Client, as_string, shared_no_auth_err}
use go_mock_redis.Node.Command
use go_mock_redis.Node.Command.{Command, Arity, exactly, at_least, no_auth, no_multi, protected}
use go_mock_redis.Node.Process.{
  Session, map_chars, reject_command, reject_command_str, reject_command_format,
}

-- `lookupSubCommand` finds nothing.
unfoldable pub lookup_sub_command : Command → Bytes → Option Command
lookup_sub_command base sub = none

unfoldable pub lookup_command_logic :
    HashTable Bytes Command → List RedisObj → ℕ → Bool → Run (Option Command)
unfolding at as_string Dict.get lookup_sub_command
lookup_command_logic commands argv argc strict = do
  o ← at argv 0
  name ← as_string o.value
  base ← Dict.get commands name
  elim base [
    | none ↦ ok none
    | some cmd ↦
        if (argc == 1) || not cmd.is_container
        then ok (if strict && not (argc == 1) then none else some cmd)
        else if strict && not (argc == 2)
        then ok none
        else (do o' ← at argv 1; sub ← as_string o'.value; ok (lookup_sub_command cmd sub))
  ]

unfoldable pub lookup_command : HashTable Bytes Command → List RedisObj → ℕ → Run (Option Command)
unfolding lookup_command_logic
lookup_command commands argv argc = lookup_command_logic commands argv argc false

unfoldable pub is_container_command_by_sds : HashTable Bytes Command → Bytes → Run Bool
unfolding Dict.get
is_container_command_by_sds commands name = do
  base ← Dict.get commands name
  ok (elim base [ none ↦ false | some cmd ↦ cmd.is_container ])

-- `commandCheckArity`: the test for an exact number asks for a command that is nil first, so only the
-- least number is checked. `some` is the error.
unfoldable pub too_few : Arity → ℕ → Bool
too_few (exactly n) argc = false
too_few (at_least n) argc = ltb argc n

unfoldable pub command_check_arity : Option Command → ℕ → Run (Option Bytes)
unfolding too_few
command_check_arity none argc = fault Fault.nil_pointer
command_check_arity (some cmd) argc = ok (
    if too_few cmd.arity argc
    then some (codes "wrong number of arguments for '" ++ cmd.full_name ++ codes "' command")
    else none)

-- `authRequired`, with the flags of the default user: NOPASS is bit 2 and the disabled one bit 1.
unfoldable pub auth_required : ℕ → Session → Bool
auth_required user_flags s =
    not (not (has_bit user_flags 2) || has_bit user_flags 1) && not s.authenticated

-- `render n o` is what `fmt` prints of a pointer to an object with the precision n.
module _ (render : ℕ → RedisObj → Bytes) where
  unfoldable pub describe_args : List RedisObj → Bytes → Bytes
  describe_args [] args = args
  describe_args (o ∷ os) args =
      let rest =
        describe_args os (args ++ codes "'" ++ render (128 - length args) o ++ codes "' ") in
      if leb 128 (length args) then args else rest

  -- `commandCheckExistence`: `some` is the error.
  unfoldable pub command_check_existence :
      HashTable Bytes Command → Option Command → List RedisObj → Run (Option Bytes)
  unfolding at as_string is_container_command_by_sds map_chars describe_args to_upper
  command_check_existence commands (some cmd) argv = ok none
  command_check_existence commands none argv = do
    o ← at argv 0
    name ← as_string o.value
    container ← is_container_command_by_sds commands name
    ok (
        some (
          map_chars (
            if container
            then codes "Unknown subcommand or wrong number of arguments for '"
              ++ to_upper name
              ++ codes "'. Try CLIENT HELP."
            else codes "unknown command '"
              ++ render 128 o
              ++ codes "', with args beginning with: "
              ++ describe_args (drop 1 argv) [])))

  -- What `fmt.Sprintf` makes of the two messages of `rejectCommandFormat`: the arguments arrive as one
  -- slice.
  unfoldable pub protected_text : Bytes → Bytes
  protected_text args =
      codes "["
      ++ args
      ++ codes
          "] command not allowed. If the %!s(MISSING) option is set to \"local\" you can run it from a local connection, otherwise you need to set this option in the configuration file, and then restart the server."

  unfoldable pub transaction_text : Bytes
  transaction_text = codes "Command not allowed inside a transaction%!(EXTRA []string=[])"

  -- The checks of a command that has not been looked up before: `none` lets it pass.
  unfoldable pub first_checks : HashTable Bytes Command → Session → Run (Session × Bool)
  unfolding lookup_command command_check_existence command_check_arity reject_command_str
      reject_command_format protected_text bytes_eq Command.has
  first_checks commands s₀ = do
    found ← lookup_command commands s₀.client.argv s₀.client.argc
    let s : Session = record s₀ { cmd = found; last_cmd = found; real_cmd = found }
    missing ← command_check_existence commands found s.client.argv
    elim missing [
      | some err ↦ do s' ← reject_command_str err s; ok (s', true)
      | none ↦ do
        wrong ← command_check_arity found s.client.argc
        elim wrong [
          | some err ↦ do s' ← reject_command_str err s; ok (s', true)
          | none ↦ elim found [
            | none ↦ fault Fault.nil_pointer
            | some cmd ↦
                if Command.has cmd.flags protected && bytes_eq cmd.full_name (codes "debugCommand")
                then (do
                  s' ← reject_command_format (protected_text (codes "DEBUG enable-debug-command")) s
                  ok (s', true))
                else if Command.has cmd.flags protected && bytes_eq cmd.full_name (codes "module")
                then (do
                  s' ←
                      reject_command_format (protected_text (codes "MODULE enable-module-command"))
                        s
                  ok (s', true))
                else ok (s, false)
          ]
        ]
    ]

  -- The checks that follow for every command.
  unfoldable pub last_checks : ℕ → Session → Run (Session × Bool)
  unfolding auth_required reject_command reject_command_format transaction_text Command.has
      Flags.has shared_no_auth_err
  last_checks user_flags s = elim s.cmd [
    | none ↦
        if auth_required user_flags s || Flags.has s.client.flags multi
        then fault Fault.nil_pointer
        else ok (s, false)
    | some cmd ↦
        if auth_required user_flags s && not (Command.has cmd.flags no_auth)
        then (do s' ← reject_command shared_no_auth_err s; ok (s', true))
        else if Flags.has s.client.flags multi && (cmd.flags == 2 ^ 24)
        then (do s' ← reject_command_format transaction_text s; ok (s', true))
        else ok (s, false)
  ]

  unfoldable pub process_command : HashTable Bytes Command → ℕ → Session → Run (Session × Bool)
  unfolding at as_string equal_fold first_checks last_checks
  process_command commands user_flags s = do
    o ← at s.client.argv 0
    name ← as_string o.value
    if equal_fold name (codes "host:") || equal_fold name (codes "post") then ok (s, false) else (do
      (s', done) ← elim s.cmd [ some cmd ↦ ok (s, false) | none ↦ first_checks commands s ]
      if done then ok (s', true) else last_checks user_flags s')
