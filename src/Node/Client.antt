-- ===== src/Node/Client.antt =====
-- node/client.go, node/object.go: the client and what it writes to its connection.
pub mod Replies
use go_mock_redis.Base.{
  ℕ, ◌+◌, ◌-◌, ◌^◌, ◌≡◌, refl, Bool, true, false, not, ◌&&◌, ◌||◌, List, [], ◌∷◌, ◌++◌, arith,
  Bytes, codes, crlf, ltb, leb, ◌==◌, if◌then◌else◌, Option, none, some, Run, ok, fault, Fault,
  ◌>>=◌,
}
use go_mock_redis.Base.Text.{rune_count}
use go_mock_redis.Base.Decimal.{format}
use go_mock_redis.Db.Memory.{word64}
use go_mock_redis.Db.Object.{
  RedisObj, ObjectType, EncodingType, Any, str, uint64, int64, string_type, encoding_raw,
  encoding_int, encoding_emb_str, encoding_object, new_redis_obj,
}
use go_mock_redis.Node.Flags.{
  ClientFlag, has, script, close_asap, reply_off, reply_skip, pushing, master, master_force_reply,
}

-- The fields that the modelled code uses. `written` is what the connection has been sent, `connected`
-- says that the connection is not nil, and `command` is the full name of the current command.
pub record Client : Type 0 where
  pub flags : ℕ
  pub connected : Bool
  pub argv : List RedisObj
  pub argc : ℕ
  pub command : Option Bytes
  pub written : Bytes

-- `createObject` and `createRawStringObject`.
unfoldable pub create_object : ObjectType → Any → RedisObj
unfolding new_redis_obj
create_object t ptr = new_redis_obj t encoding_raw ptr 0

unfoldable pub create_raw_string_object : Bytes → RedisObj
unfolding create_object
create_raw_string_object s = create_object string_type (str s)

unfoldable pub create_embedded_string_object : Bytes → RedisObj
unfolding new_redis_obj
create_embedded_string_object s = new_redis_obj string_type encoding_emb_str (str s) 0

-- The type assertions `o.Value.(string)`, `o.Value.(int64)` and `o.Value.(uint64)`.
unfoldable pub as_string : Any → Run Bytes
as_string (str s) = ok s
as_string _ = fault Fault.bad_assertion

unfoldable pub as_int64 : Any → Run ℕ
as_int64 (int64 n) = ok n
as_int64 _ = fault Fault.bad_assertion

unfoldable pub as_uint64 : Any → Run ℕ
as_uint64 (uint64 n) = ok n
as_uint64 _ = fault Fault.bad_assertion

-- `stringObjectLen`: the runes of the text, not its bytes.
unfoldable pub string_object_len : RedisObj → Run ℕ
unfolding as_string rune_count
string_object_len o = do s ← as_string o.value; ok (rune_count s)

-- `getLongLongFromObject` of an object that is not nil.
unfoldable pub get_long_long_from_object : RedisObj → Run ℕ
unfolding encoding_object as_uint64
get_long_long_from_object o =
    if encoding_object o
    then elim o.value [ uint64 n ↦ ok n | _ ↦ ok 0 ]
    else elim o.encoding [ encoding_int ↦ as_uint64 o.value | _ ↦ fault Fault.explicit_panic ]

-- A decimal int64 from its bit pattern.
unfoldable pub format_int64 : ℕ → Bytes
unfolding format
format_int64 n = if ltb n (2 ^ 63) then format n else b'-' ∷ format (word64 - n)

unfoldable pub ll_2_string : ℕ → ℕ → Bytes
unfolding format_int64
ll_2_string prefix ll = prefix ∷ format_int64 ll ++ crlf

unfoldable pub prepare_client_to_write : Client → Bool
unfolding has
prepare_client_to_write c =
    if has c.flags script
    then true
    else if has c.flags close_asap
    then false
    else if (has c.flags reply_off || has c.flags reply_skip) && not (has c.flags pushing)
    then false
    else if has c.flags master && not (has c.flags master_force_reply)
    then false
    else c.connected

-- `c.connection.Write`; a client of a script may be written to without a connection, which is a call
-- of a method of nil.
unfoldable pub write : Client → Bytes → Run Client
write c proto =
    if c.connected then ok (record c { written = c.written ++ proto }) else fault Fault.nil_pointer

unfoldable pub add_reply_proto : Client → Bytes → Run Client
unfolding prepare_client_to_write write
add_reply_proto c proto = if prepare_client_to_write c then write c proto else ok c

unfoldable pub add_reply : Client → RedisObj → Run Client
unfolding prepare_client_to_write write encoding_object as_string as_int64 format_int64
add_reply c reply =
    if prepare_client_to_write c
    then (if encoding_object reply
        then (do s ← as_string reply.value; write c s)
        else elim reply.encoding [
          | encoding_int ↦ do n ← as_int64 reply.value; write c (format_int64 n)
          | _ ↦ fault Fault.explicit_panic
        ])
    else ok c

unfoldable pub add_reply_long_long_with_prefix : Client → ℕ → ℕ → Run Client
unfolding add_reply_proto ll_2_string
add_reply_long_long_with_prefix c prefix ll = add_reply_proto c (ll_2_string prefix ll)

unfoldable pub add_reply_bulk_len : Client → RedisObj → Run Client
unfolding string_object_len add_reply_long_long_with_prefix
add_reply_bulk_len c obj = do l ← string_object_len obj; add_reply_long_long_with_prefix c b'$' l

unfoldable pub add_reply_bulk : Client → RedisObj → Run Client
unfolding add_reply_bulk_len add_reply add_reply_proto
add_reply_bulk c obj = do
  c' ← add_reply_bulk_len c obj
  c'' ← add_reply c' obj
  add_reply_proto c'' crlf

-- The prefix is written only before a message that begins with a dash.
unfoldable pub starts_with_dash : Bytes → Bool
starts_with_dash [] = false
starts_with_dash (a ∷ s) = a == b'-'

unfoldable pub add_reply_error_length : Client → Bytes → Run Client
unfolding add_reply_proto starts_with_dash
add_reply_error_length c err = do
  c' ← (if starts_with_dash err then add_reply_proto c (codes "-ERR") else ok c)
  c'' ← add_reply_proto c' err
  add_reply_proto c'' crlf

-- `AddReplyError`, `addReplyErrorFormat` and `addReplyErrorStr`; `afterErrorReply` does nothing.
unfoldable pub add_reply_error : Client → Bytes → Run Client
unfolding add_reply_error_length
add_reply_error c err = add_reply_error_length c err

unfoldable pub add_reply_error_expire_time : Client → Run Client
unfolding add_reply_error
add_reply_error_expire_time c = elim c.command [
  | none ↦ fault Fault.nil_pointer
  | some name ↦ add_reply_error c (codes "invalid expire time in '" ++ name ++ codes "' command")
]

-- `execCommandAbort`.
unfoldable pub exec_command_abort : Client → Bytes → Run Client
unfolding add_reply_error
exec_command_abort c s =
    add_reply_error c (codes "-EXECABORT Transaction discarded because of: " ++ s)

unfoldable pub add_reply_error_object : Client → RedisObj → Run Client
unfolding add_reply as_string
add_reply_error_object c err = do c' ← add_reply c err; _ ← as_string err.value; ok c'

-- The shared replies that the modelled commands send.
unfoldable pub shared_ok : RedisObj
unfolding create_raw_string_object
shared_ok = create_raw_string_object (codes "OK" ++ crlf)

unfoldable pub shared_null_3 : RedisObj
unfolding create_raw_string_object
shared_null_3 = create_raw_string_object (b'_' ∷ crlf)

unfoldable pub shared_syntax_err : RedisObj
unfolding create_raw_string_object
shared_syntax_err = create_raw_string_object (codes "-ERR syntax error" ++ crlf)

unfoldable pub shared_no_auth_err : RedisObj
unfolding create_raw_string_object
shared_no_auth_err = create_raw_string_object (codes "-NOAUTH Authentication required." ++ crlf)
