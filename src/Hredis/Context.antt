-- ===== src/Hredis/Context.antt =====
-- deps/hredis/hredis.go: the connection's context, and the commands that go through it.
pub mod Command
use go_mock_redis.Base.{
  ℕ, zero, suc, Bool, true, false, Option, none, some, List, [], ◌∷◌, ◌++◌, if◌then◌else◌, Bytes,
  Run, ok, fault, nil_pointer, no_fuel, ◌>>=◌,
}
use go_mock_redis.Base.Words.{has_bit, set_bit}
use go_mock_redis.Hredis.{
  Status, redis_err, redis_ok, ErrFlag, no_err, ReplyType, push, Makers, Reader,
}
use go_mock_redis.Hredis.Replies.{get_reply}
use go_mock_redis.Hredis.Format.{Arg, other, Formatted, argv, refused, redis_format_command}

-- The bits of `RedisOptType`.
abbrev pub opt_non_block : ℕ
opt_non_block = 0

abbrev pub opt_reuse_addr : ℕ
opt_reuse_addr = 1

abbrev pub opt_no_auto_free : ℕ
opt_no_auto_free = 2

abbrev pub opt_no_auto_free_replies : ℕ
opt_no_auto_free_replies = 4

abbrev pub opt_prefer_ipv4 : ℕ
opt_prefer_ipv4 = 5

abbrev pub opt_prefer_ipv6 : ℕ
opt_prefer_ipv6 = 6

-- The bits of `ConnectionType`.
abbrev pub block : ℕ
block = 0

abbrev pub reused_addr : ℕ
reused_addr = 7

abbrev pub no_auto_free : ℕ
no_auto_free = 9

abbrev pub no_auto_free_replies : ℕ
no_auto_free_replies = 10

abbrev pub prefer_ipv4 : ℕ
prefer_ipv4 = 11

abbrev pub prefer_ipv6 : ℕ
prefer_ipv6 = 12

-- `RedisContext`, less the fields that nothing reads; the reader is a pointer that may be nil.
pub record Context (Obj : Type 0) : Type 0 where
  pub err : ErrFlag
  pub err_str : Bytes
  pub o_buf : Bytes
  pub reader : Option (Reader Obj)
  pub flags : ℕ

-- One `if` of `NewRedisContextWithOpts`.
abbrev pub when_set : ℕ → (opt flag : ℕ) → ℕ → ℕ
when_set options opt flag flags = if has_bit options opt then set_bit flags flag else flags

unfoldable pub flags_of : ℕ → ℕ
flags_of options =
    let flags = if has_bit options opt_non_block then 0 else set_bit 0 block in
    when_set options opt_prefer_ipv6 prefer_ipv6 (
      when_set options opt_prefer_ipv4 prefer_ipv4 (
        when_set options opt_no_auto_free_replies no_auto_free_replies (
          when_set options opt_no_auto_free no_auto_free
            (when_set options opt_reuse_addr reused_addr flags))))

unfoldable pub new_redis_context_with_opts : (Obj : Type 0) → ℕ → Context Obj
unfolding flags_of
new_redis_context_with_opts Obj options = record {
  err = no_err;
  err_str = [];
  o_buf = [];
  reader = none;
  flags = flags_of options;
}

-- `RedisConnect` and `RedisConnectUnix`: the address is not used, and no option is set.
unfoldable pub redis_connect : (Obj : Type 0) → Context Obj
unfolding new_redis_context_with_opts
redis_connect Obj = new_redis_context_with_opts Obj 0

module _ {Obj : Type 0} where
  unfoldable pub set_error : Context Obj → ErrFlag → Bytes → Context Obj
  set_error c tp [] = record c { err = tp }
  set_error c tp text = record c { err = tp; err_str = text }

  -- `tp_of` is the type of a reply.
  unfoldable pub redis_handled_push_reply : (Obj → ReplyType) → Option Obj → Bool
  redis_handled_push_reply tp_of none = false
  redis_handled_push_reply tp_of (some reply) = elim (tp_of reply) [ push ↦ true | _ ↦ false ]

  unfoldable pub redis_append_command : Context Obj → List Bytes → Context Obj
  redis_append_command c [] = c
  redis_append_command c (s ∷ cmd) = redis_append_command (record c { o_buf = c.o_buf ++ s }) cmd

  unfoldable pub append_formatted : Context Obj → Formatted → Status × Context Obj
  unfolding redis_append_command
  append_formatted c (refused why) = (redis_err, c)
  append_formatted c (argv cmd) = (redis_ok, redis_append_command c cmd)

  unfoldable pub redis_v_append_command : Context Obj → Bytes → List Arg → Status × Context Obj
  unfolding redis_format_command append_formatted
  redis_v_append_command c format args = append_formatted c (redis_format_command format args)

  -- The reader's error is copied when a call failed.
  unfoldable pub replied : Context Obj → Status × Reader Obj → Status × Context Obj
  unfolding set_error
  replied c (redis_ok, r) = (redis_ok, record c { reader = some r })
  replied c (redis_err, r) = (redis_err, set_error (record c { reader = some r }) r.err r.err_str)

  module _ (f : Makers Obj) where
    unfoldable pub redis_get_reply_from_reader : Context Obj → Run (Status × Context Obj)
    unfolding get_reply replied
    redis_get_reply_from_reader c = elim c.reader [
      | none ↦ fault nil_pointer
      | some r ↦ get_reply f r >>= λ result. ok (replied c result)
    ]

    -- A round of `redisNextInBandReplyFromReader`, with the rounds that follow. The reply that it is
    -- given is nil and stays so, since the calls get a copy of the pointer.
    unfoldable pub in_band_round :
        (Obj → ReplyType)
        → Option Obj
        → (Context Obj → Run (Status × Context Obj))
        → Status × Context Obj
        → Run (Status × Context Obj)
    unfolding redis_handled_push_reply
    in_band_round tp_of reply rest (redis_err, c) = ok (redis_err, c)
    in_band_round tp_of reply rest (redis_ok, c) =
        let again = rest c in
        if redis_handled_push_reply tp_of reply then again else ok (redis_ok, c)

    unfoldable pub redis_next_in_band_reply_from_reader :
        (Obj → ReplyType) → ℕ → Option Obj → Context Obj → Run (Status × Context Obj)
    unfolding redis_get_reply_from_reader in_band_round
    redis_next_in_band_reply_from_reader tp_of zero reply c = fault no_fuel
    redis_next_in_band_reply_from_reader tp_of (suc fuel) reply c =
        redis_get_reply_from_reader c
        >>= in_band_round tp_of reply (redis_next_in_band_reply_from_reader tp_of fuel reply)

    -- `redisGetReply` and `redisBlockForReply`: the reply is the pointer that was given, still nil.
    unfoldable pub redis_block_for_reply :
        (Obj → ReplyType) → Context Obj → Run (Option Obj × Context Obj)
    unfolding redis_next_in_band_reply_from_reader
    redis_block_for_reply tp_of c =
        let aux : Option Obj = none in
        let waited = redis_next_in_band_reply_from_reader tp_of 1 aux c >>= λ (result, c').
        ok (elim result [ redis_ok ↦ aux | redis_err ↦ none ], c') in
        if has_bit c.flags block then waited else ok (none, c)

    -- The rest of `RedisVCommand`, behind the append.
    unfoldable pub reply_to :
        (Obj → ReplyType) → Status × Context Obj → Run (Option Obj × Context Obj)
    unfolding redis_block_for_reply
    reply_to tp_of (redis_ok, c) = redis_block_for_reply tp_of c
    reply_to tp_of (redis_err, c) = ok (none, c)

    unfoldable pub redis_v_command :
        (Obj → ReplyType) → Context Obj → Bytes → List Arg → Run (Option Obj × Context Obj)
    unfolding redis_v_append_command reply_to
    redis_v_command tp_of c format args = reply_to tp_of (redis_v_append_command c format args)

    -- `RedisCommand` passes its arguments on as one, a slice, which is neither a text nor an integer.
    unfoldable pub redis_command :
        (Obj → ReplyType) → Context Obj → Bytes → List Arg → Run (Option Obj × Context Obj)
    unfolding redis_v_command
    redis_command tp_of c format args = redis_v_command tp_of c format (other ∷ [])
