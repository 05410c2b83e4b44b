-- ===== src/Node/StrCmd.antt =====
-- node/strcmd.go: SET, SETNX, SETEX, PSETEX and GET.
pub mod Expire
pub mod Stores
pub mod Outcomes
pub mod Reads
pub mod Syntax
use go_mock_redis.Base.{
  ℕ, zero, suc, ◌+◌, ◌-◌, ◌*◌, ◌%◌, ◌≡◌, refl, Bool, true, false, not, ◌&&◌, ◌||◌, List, [], ◌∷◌,
  arith, Bytes, codes, ltb, ◌==◌, if◌then◌else◌, Option, none, some, Run, ok, fault, Fault, ◌>>=◌,
}
use go_mock_redis.Base.Words.{has_bit, set_bit}
use go_mock_redis.Db.Memory.{word64}
use go_mock_redis.Db.Dict.{at}
use go_mock_redis.Db.Object.{RedisObj, Any, str}
use go_mock_redis.Db.Keyspace.{
  RedisDb, lookup_key_read, lookup_key_write, set_key, set_expire, keep_ttl_bit, already_exists_bit,
  does_not_exist_bit,
}
use go_mock_redis.Node.Client.{
  Client, as_string, get_long_long_from_object, add_reply, add_reply_bulk, add_reply_error,
  add_reply_error_expire_time, shared_ok, shared_null_3,
}
use go_mock_redis.Node.Options.{
  SetFlag, has, xx, nx, keep_ttl, get, CommandType, command_set, TimeUnit, seconds, milliseconds,
  Parsed, parse_extended_string_arguments_or_reply, bit,
}

-- `StrCmd`: the client and the database.
pub record StrCmd : Type 0 where
  pub c : Client
  pub db : RedisDb

-- `getExpireMillisecondsOrReply`: `none` is the flag false.
unfoldable pub get_expire_milliseconds_or_reply :
    Client → RedisObj → TimeUnit → Run (Client × Option ℕ)
unfolding get_long_long_from_object add_reply_error add_reply_error_expire_time
get_expire_milliseconds_or_reply c expire unit = do
  ret ← get_long_long_from_object expire
  if ret == 0
      then (do c' ← add_reply_error c (codes "invalid expire time in SETEX"); ok (c', none))
      else elim unit [
        | seconds ↦
            if ltb 9223372036 ret
            then (do c' ← add_reply_error_expire_time c; ok (c', none))
            else ok (c, some (ret * 1000 % word64))
        | milliseconds ↦
            if ltb 9223372036854775 ret
            then (do c' ← add_reply_error_expire_time c; ok (c', none))
            else ok (c, some ret)
      ]

-- The expire time of `setGenericCommand`: `some none` where there is no expire argument, and `none`
-- where the command has replied with an error.
unfoldable pub read_expire : Client → Option RedisObj → TimeUnit → Run (Client × Option (Option ℕ))
unfolding get_expire_milliseconds_or_reply
read_expire c none unit = ok (c, some none)
read_expire c (some expire) unit = do
  (c', ms) ← get_expire_milliseconds_or_reply c expire unit
  ok (c', elim ms [ none ↦ none | some n ↦ some (some n) ])

abbrev pub is_given : Option (Option RedisObj) → Bool
is_given none = false
is_given (some o) = true

-- `setkeyFlags`.
unfoldable pub set_key_flags : ℕ → Bool → Bool → ℕ
unfolding has
set_key_flags flags expiring exist =
    let ttl = if has flags keep_ttl || not expiring then set_bit 0 keep_ttl_bit else 0 in
    if exist then set_bit ttl already_exists_bit else set_bit ttl does_not_exist_bit

abbrev pub is_expiring : Option ℕ → Bool
is_expiring none = false
is_expiring (some n) = true

-- The end of `setGenericCommand`, once the key has been looked up.
unfoldable pub store_and_reply : StrCmd → ℕ → Bytes → RedisObj → Option ℕ → Bool → Run StrCmd
unfolding has set_key_flags set_key set_expire add_reply shared_ok
store_and_reply cmd flags key val ms exist = do
  db' ← set_key cmd.db key val (set_key_flags flags (is_expiring ms) exist)
  db'' ← elim ms [ none ↦ ok db' | some n ↦ set_expire db' key n ]
  c' ← (if has flags get then ok cmd.c else add_reply cmd.c shared_ok)
  ok (record { c = c'; db = db'' })

unfoldable pub set_generic_command :
    StrCmd → ℕ → Bytes → RedisObj → Option RedisObj → TimeUnit → Run StrCmd
unfolding has read_expire lookup_key_write add_reply shared_null_3 store_and_reply
set_generic_command cmd flags key val expire unit = do
  (c', time) ← read_expire cmd.c expire unit
  elim time [
    | none ↦ ok (record cmd { c = c' })
    | some ms ↦ do
      (db', found) ← lookup_key_write cmd.db key
      let exist = is_given found
      let cmd' : StrCmd = record { c = c'; db = db' }
      if (has flags xx && not exist) || (has flags nx && exist)
          then (if has flags get
              then ok cmd'
              else (do c'' ← add_reply c' shared_null_3; ok (record cmd' { c = c'' })))
          else store_and_reply cmd' flags key val ms exist
  ]

-- `cmd.c.argv[i].Value.(string)`
unfoldable pub key_at : Client → ℕ → Run Bytes
unfolding at as_string
key_at c i = do o ← at c.argv i; as_string o.value

-- `Set`.
unfoldable pub set : StrCmd → Run StrCmd
unfolding parse_extended_string_arguments_or_reply set_generic_command key_at at
set cmd = do
  (c', p) ← parse_extended_string_arguments_or_reply cmd.c 0 command_set
  if p.ok_flag
      then (do
        key ← key_at c' 1
        val ← at c'.argv 2
        set_generic_command (record cmd { c = c' }) p.ret_flags key val p.expire p.unit)
      else ok (record cmd { c = c' })

unfoldable pub set_nx : StrCmd → Run StrCmd
unfolding set_generic_command key_at at
set_nx cmd = do
  key ← key_at cmd.c 1
  val ← at cmd.c.argv 2
  set_generic_command cmd (set_bit 0 (bit nx)) key val none seconds

unfoldable pub set_ex : StrCmd → Run StrCmd
unfolding set_generic_command key_at at
set_ex cmd = do
  key ← key_at cmd.c 1
  val ← at cmd.c.argv 3
  expire ← at cmd.c.argv 2
  set_generic_command cmd (set_bit 0 (bit SetFlag.ex)) key val (some expire) seconds

unfoldable pub p_set_ex : StrCmd → Run StrCmd
unfolding set_generic_command key_at at
p_set_ex cmd = do
  key ← key_at cmd.c 1
  val ← at cmd.c.argv 3
  expire ← at cmd.c.argv 2
  set_generic_command cmd (set_bit 0 (bit SetFlag.px)) key val (some expire) milliseconds

-- `Get`, that is `getGenericCommand`, whose flag says whether the key was found.
unfoldable pub get_generic_command : StrCmd → Run (StrCmd × Bool)
unfolding key_at lookup_key_read add_reply add_reply_bulk shared_null_3
get_generic_command cmd = do
  key ← key_at cmd.c 1
  (db', found) ← lookup_key_read cmd.db key
  elim found [
    | none ↦ do c' ← add_reply cmd.c shared_null_3; ok (record { c = c'; db = db' }, false)
    | some none ↦ fault Fault.nil_pointer
    | some (some o) ↦ do c' ← add_reply_bulk cmd.c o; ok (record { c = c'; db = db' }, true)
  ]
