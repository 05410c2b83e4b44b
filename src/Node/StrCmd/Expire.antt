-- ===== src/Node/StrCmd/Expire.antt =====
-- node/strcmd.go: the expire argument of SET, SETEX and PSETEX.
use go_mock_redis.Base.{
  ℕ, ◌*◌, ◌^◌, ◌≤◌, ◌<◌, ◌≡◌, ap, refl, true, false, ◌++◌, arith, Bytes, codes, crlf, ltb, ◌==◌,
  some, ok, ◌>>=◌,
}
use go_mock_redis.Db.Object.{RedisObj, uint64, encoding_object}
use go_mock_redis.Node.Client.{Client, get_long_long_from_object, starts_with_dash}
use go_mock_redis.Node.Client.Replies.{IsText, IsWritable, sent, add_reply_error-sent}
use go_mock_redis.Node.Options.{TimeUnit, seconds, milliseconds}
use go_mock_redis.Node.StrCmd.{
  StrCmd, get_expire_milliseconds_or_reply, read_expire, set_generic_command,
}

-- The largest argument that is taken, and the milliseconds of a unit.
abbrev pub limit : TimeUnit → ℕ
limit seconds = 9223372036
limit milliseconds = 9223372036854775

abbrev pub unit_length : TimeUnit → ℕ
unit_length seconds = 1000
unit_length milliseconds = 1

-- An object with a number.
pub record IsNumber (o : RedisObj) (n : ℕ) : Type 0 where
  pub encoded : encoding_object o ≡ true
  pub number : o.value ≡ uint64 n

-- An expire time that is an object with a raw or embedded encoding and a uint64 from 1 to the
-- limit of its unit is taken, and its milliseconds are the number times the length of the unit,
-- without wrapping around, and below 2^63.
pub get_expire-limit :
    (c : Client) (o : RedisObj) (n : ℕ) (unit : TimeUnit)
    → IsNumber o n
    → 0 < n
    → n ≤ limit unit
    → (get_expire_milliseconds_or_reply c o unit ≡ ok (c, some (n * unit_length unit)))
      × (n * unit_length unit < 2 ^ 63)
unfolding get_expire_milliseconds_or_reply get_long_long_from_object
get_expire-limit c o n seconds num pos small =
    let nonzero : (n == 0) ≡ false = ground arith in
    let fits : ltb 9223372036 n ≡ false = ground arith in
    (
      rw (num.encoded, get_expire_milliseconds_or_reply, num.number, ◌>>=◌, nonzero, fits)
          (ap (λ m. ok (c, some m)) (omega arith)),
      omega arith,
    )
get_expire-limit c o n milliseconds num pos small =
    let nonzero : (n == 0) ≡ false = ground arith in
    let fits : ltb 9223372036854775 n ≡ false = ground arith in
    (
      rw (num.encoded, get_expire_milliseconds_or_reply, num.number, ◌>>=◌, nonzero, fits)
          (ap (λ m. ok (c, some m)) (omega arith)),
      omega arith,
    )

-- A SET whose expire time is an object with a text, whatever the text is, is refused for a client
-- that may be written to: the database is left alone and the client is sent `invalid expire time
-- in SETEX` and the line end.
pub set_generic_command-text_expire :
    (cmd : StrCmd) (flags : ℕ) (key : Bytes) (val expire : RedisObj) (unit : TimeUnit) (s : Bytes)
    → IsWritable cmd.c
    → IsText expire s
    → set_generic_command cmd flags key val (some expire) unit
      ≡ ok (record cmd { c = sent cmd.c (codes "invalid expire time in SETEX" ++ crlf) })
unfolding set_generic_command read_expire get_expire_milliseconds_or_reply get_long_long_from_object
    starts_with_dash
set_generic_command-text_expire cmd flags key val expire unit s w t =
    rw
      (
        t.encoded,
        set_generic_command,
        t.text,
        ◌>>=◌,
        add_reply_error-sent cmd.c (codes "invalid expire time in SETEX") w,
      )
      refl
