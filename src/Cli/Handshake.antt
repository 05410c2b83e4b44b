-- ===== src/Cli/Handshake.antt =====
-- cmd/cli.go: the handshake on the connection that `RedisConnect` of deps/hredis/hredis.go makes.
use go_mock_redis.Base.{
  ◌≡◌, refl, not, ◌||◌, List, Bytes, codes, ◌++◌, ok, fault, nil_pointer, Run, ◌>>=◌, if◌then◌else◌,
  Bool-cases, inl, inr,
}
use go_mock_redis.Hredis.{Status, redis_ok, redis_err, Makers}
use go_mock_redis.Hredis.Format.{Arg}
use go_mock_redis.Hredis.Context.{redis_connect}
use go_mock_redis.Hredis.Context.Command.{has_percent, redis_command-connected}
use go_mock_redis.Cli.{
  RedisCliCfg, RedisCli, ReplyFields, is_empty, int_is, is_negative, is_positive, ask, auth,
  select_input_db, switch_proto, is_ok, handshake,
}

module _ {Obj : Type 0} (makers : Makers Obj) (fields : ReplyFields Obj) (config : RedisCliCfg)
    (printed : Bytes) where
  -- On a connection that has been made and not used.
  abbrev pub connected : RedisCli Obj
  connected = record { config = config; context = redis_connect Obj; printed = printed }

  -- No reply: the message, and the client as it was.
  abbrev pub no_reply : Run (Status × RedisCli Obj)
  no_reply = ok (redis_err, record connected { printed = printed ++ codes "\nI/O error\n" })

  ask-connected :
      (format : Bytes) (args : List Arg) (handle : RedisCli Obj → Obj → Run (Status × RedisCli Obj))
      → ask makers fields connected format args handle
        ≡ (if has_percent format then no_reply else fault nil_pointer)
  unfolding ask
  ask-connected format args handle =
      rw (redis_command-connected makers fields.tp format args)
        (elim (Bool-cases (has_percent format)) [
          | inl y ↦ rw (y, ◌>>=◌) refl
          | inr n ↦ rw (n, ◌>>=◌) refl
        ])

  auth-connected :
      auth makers fields connected
      ≡ (if is_empty config.auth then ok (redis_ok, connected) else no_reply)
  unfolding auth
  auth-connected = elim (Bool-cases (is_empty config.user)) [
    | inl y ↦ rw (y, ask-connected) refl
    | inr n ↦ rw (n, ask-connected) refl
  ]

  select_input_db-connected :
      select_input_db makers fields connected
      ≡ (if int_is config.input_db_num config.db_num then ok (redis_ok, connected) else no_reply)
  unfolding select_input_db
  select_input_db-connected = rw ask-connected refl

  switch_proto-connected : switch_proto makers fields connected ≡ (
      if is_negative config.resp3 || is_positive config.resp2
      then ok (redis_ok, connected)
      else fault nil_pointer)
  unfolding switch_proto
  switch_proto-connected = rw ask-connected refl

  -- The handshake of the command line client on a connection that `RedisConnect` has made comes to
  -- one of three ends: with a password, or with a database to select that is not the present one,
  -- it prints an I/O error and fails, and changes nothing else; otherwise it succeeds where the
  -- protocol is not to be switched, and panics where it is.
  pub handshake-connected : handshake makers fields connected ≡ (
      if not (is_empty config.auth) || not (int_is config.input_db_num config.db_num)
      then no_reply
      else if is_negative config.resp3 || is_positive config.resp2
      then ok (redis_ok, connected)
      else fault nil_pointer)
  unfolding handshake is_ok
  handshake-connected = elim (Bool-cases (is_empty config.auth)) [
    | inr filled ↦ rw (handshake, auth-connected, filled, ◌>>=◌) refl
    | inl none_given ↦ elim (Bool-cases (int_is config.input_db_num config.db_num)) [
      | inr other_db ↦
          rw (handshake, auth-connected, none_given, ◌>>=◌, select_input_db-connected, other_db)
            refl
      | inl same_db ↦ elim (Bool-cases (is_negative config.resp3 || is_positive config.resp2)) [
        | inl keep ↦
            rw
              (
                handshake, auth-connected, none_given, ◌>>=◌, select_input_db-connected, same_db,
                switch_proto-connected, keep,
              )
              refl
        | inr ask_it ↦
            rw
              (
                handshake, auth-connected, none_given, ◌>>=◌, select_input_db-connected, same_db,
                switch_proto-connected, ask_it,
              )
              refl
      ]
    ]
  ]
