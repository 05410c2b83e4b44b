-- ===== src/Cli.antt =====
-- cmd/cli.go: the settings of the command line client, its prompt, and the handshake with which it
-- begins a connection.
pub mod Handshake
use go_mock_redis.Base.{
  ℕ, zero, suc, ◌+◌, Bool, true, false, ◌&&◌, ◌||◌, List, [], ◌∷◌, ◌++◌, Option, none, some, ltb,
  ◌==◌, if◌then◌else◌, Bytes, bytes_eq, codes, Run, ok, fault, no_fuel, ◌>>=◌,
}
use go_mock_redis.Base.Signed.{ℤ, pos, negsuc}
use go_mock_redis.Base.Strconv.{format_int}
use go_mock_redis.Hredis.{Status, redis_ok, redis_err, ReplyType, error, Makers}
use go_mock_redis.Hredis.Format.{Arg, text, int}
use go_mock_redis.Hredis.Context.{Context, redis_command}

-- `RedisCliCfg` and `CliConnInfo`, the fields that the handshake and the prompt use.
pub record RedisCliCfg : Type 0 where
  pub host_ip : Bytes
  pub host_port : ℤ
  pub input_db_num : ℤ
  pub auth : Bytes
  pub user : Bytes
  pub host_socket : Bytes
  pub db_num : ℤ
  pub in_multi : Bool
  pub eval_ldb : Bool
  pub pubsub_mode : Bool
  pub prompt : Bytes
  pub server_version : Bytes
  pub resp2 : ℤ
  pub resp3 : ℤ
  pub current_resp3 : Bool

-- The settings, the connection, and what was written to the standard error.
pub record RedisCli (Obj : Type 0) : Type 0 where
  pub config : RedisCliCfg
  pub context : Context Obj
  pub printed : Bytes

-- The fields of `RedisReply` that the client reads; an element outside the slice, or nil, is a fault.
pub record ReplyFields (Obj : Type 0) : Type 0 where
  pub tp : Obj → ReplyType
  pub text_of : Obj → Bytes
  pub elements : Obj → ℕ
  pub element : Obj → ℕ → Run Obj

unfoldable pub is_error : ReplyType → Bool
is_error error = true
is_error _ = false

-- `a == b`, and the comparisons of an `int` and of a text with nothing.
unfoldable pub int_is : ℤ → ℤ → Bool
int_is (pos a) (pos b) = a == b
int_is (negsuc a) (negsuc b) = a == b
int_is _ _ = false

abbrev pub is_empty : Bytes → Bool
is_empty [] = true
is_empty (c ∷ s) = false

abbrev pub is_negative : ℤ → Bool
is_negative (pos n) = false
is_negative (negsuc n) = true

abbrev pub is_positive : ℤ → Bool
is_positive (pos zero) = false
is_positive (pos (suc n)) = true
is_positive (negsuc n) = false

-- `cliRefreshPrompt`
unfoldable pub cli_refresh_prompt : RedisCliCfg → RedisCliCfg
unfolding int_is
cli_refresh_prompt config =
    let host =
      if is_empty config.host_socket
      then codes "redis://" ++ config.host_ip ++ codes ":" ++ format_int config.host_port
      else codes "redis " ++ config.host_socket in
    let db =
      if int_is config.db_num (pos 0)
      then []
      else codes "[" ++ format_int config.db_num ++ codes "]" in
    let tx = if config.in_multi then codes "[TX]" else [] in
    let pubsub = if config.pubsub_mode then codes "[pubsub]" else [] in
    if config.eval_ldb
    then config
    else record config { prompt = host ++ db ++ tx ++ pubsub ++ codes "> " }

module _ {Obj : Type 0} (makers : Makers Obj) (fields : ReplyFields Obj) where
  abbrev pub say : Bytes → RedisCli Obj → RedisCli Obj
  say message cli = record cli { printed = cli.printed ++ message }

  -- A command, and what happens to a reply; no reply is an I/O error.
  unfoldable pub ask :
      RedisCli Obj
      → (format : Bytes) → List Arg
      → (RedisCli Obj → Obj → Run (Status × RedisCli Obj))
      → Run (Status × RedisCli Obj)
  ask cli format args handle = do
    (reply, context) ← redis_command makers fields.tp cli.context format args
    let cli' = record cli { context = context }
    elim reply [ none ↦ ok (redis_err, say (codes "\nI/O error\n") cli') | some r ↦ handle cli' r ]

  unfoldable pub auth_reply : RedisCli Obj → Obj → Run (Status × RedisCli Obj)
  unfolding is_error
  auth_reply cli r =
      if is_error (fields.tp r)
      then ok (redis_err, say (codes "AUTH failed: " ++ fields.text_of r ++ codes "\n") cli)
      else ok (redis_ok, cli)

  unfoldable pub auth : RedisCli Obj → Run (Status × RedisCli Obj)
  unfolding ask auth_reply
  auth cli =
      let config = cli.config in
      let one = ask cli (codes "AUTH %s") (text config.auth ∷ []) auth_reply in
      let two =
        ask cli (codes "AUTH %s %s") (text config.auth ∷ text config.user ∷ []) auth_reply in
      if is_empty config.auth then ok (redis_ok, cli) else if is_empty config.user then one else two

  unfoldable pub select_reply : RedisCli Obj → Obj → Run (Status × RedisCli Obj)
  unfolding is_error cli_refresh_prompt
  select_reply cli r =
      if is_error (fields.tp r)
      then ok (
        redis_err,
        say
            (codes "SELECT "
              ++ format_int cli.config.input_db_num
              ++ codes " failed: "
              ++ fields.text_of r
              ++ codes "\n")
            cli,
      )
      else ok (
        redis_ok,
        record cli {
          config = cli_refresh_prompt (record cli.config { db_num = cli.config.input_db_num });
        },
      )

  unfoldable pub select_input_db : RedisCli Obj → Run (Status × RedisCli Obj)
  unfolding ask select_reply int_is
  select_input_db cli =
      let asked = ask cli (codes "SELECT %d") (int cli.config.input_db_num ∷ []) select_reply in
      if int_is cli.config.input_db_num cli.config.db_num then ok (redis_ok, cli) else asked

  -- The search for the version, from an index on, with the rounds that are left.
  unfoldable pub find_version : ℕ → Obj → ℕ → RedisCliCfg → Run RedisCliCfg
  find_version zero r i config = fault no_fuel
  find_version (suc rounds) r i config =
      let later = find_version rounds r (i + 2) config in
      let here = do
        key ← fields.element r i
        if bytes_eq (fields.text_of key) (codes "server")
            then (do
              v ← fields.element r (i + 1)
              ok (record config { server_version = fields.text_of v }))
            else later
      in if ltb i (fields.elements r) then here else ok config

  unfoldable pub hello_reply : RedisCli Obj → Obj → Run (Status × RedisCli Obj)
  unfolding is_error int_is find_version
  hello_reply cli r = do
    let failed = is_error (fields.tp r)
    let result = if failed && int_is cli.config.resp3 (pos 1) then redis_err else redis_ok
    let cli₁ =
        if failed then say (codes "HELLO 3 failed: " ++ fields.text_of r ++ codes "\n") cli else cli
    config ← find_version (suc (fields.elements r)) r 0 cli₁.config
    ok (result, record cli₁ { config = record config { current_resp3 = true } })

  unfoldable pub switch_proto : RedisCli Obj → Run (Status × RedisCli Obj)
  unfolding ask hello_reply
  switch_proto cli =
      let asked = ask cli (codes "HELLO 3") [] hello_reply in
      if is_negative cli.config.resp3 || is_positive cli.config.resp2
      then ok (redis_ok, cli)
      else asked

  unfoldable pub is_ok : Status → Bool
  is_ok redis_ok = true
  is_ok _ = false

  -- The last part of `connect`.
  unfoldable pub handshake : RedisCli Obj → Run (Status × RedisCli Obj)
  unfolding is_ok auth select_input_db switch_proto
  handshake cli = do
    (a, cli₁) ← auth cli
    if is_ok a
        then (do
          (b, cli₂) ← select_input_db cli₁
          if is_ok b
              then (do
                (c, cli₃) ← switch_proto cli₂
                ok (if is_ok c then redis_ok else redis_err, cli₃))
              else ok (redis_err, cli₂))
        else ok (redis_err, cli₁)
