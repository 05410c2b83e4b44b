-- ===== src/Hredis/Context/Command.antt =====
-- What commands come to: what is put into the output buffer, and that no reply is given.
use go_mock_redis.Base.{
  ℕ, ◌≡◌, refl, ◌∙◌, Bool, true, false, ◌||◌, none, List, [], ◌∷◌, ◌++◌, append_assoc, append-nil,
  arith, inl, inr, ◌==◌, if◌then◌else◌, Bool-cases, Bytes, ok, fault, nil_pointer,
}
use go_mock_redis.Base.Words.{has_bit}
use go_mock_redis.Hredis.{ReplyType, Makers, redis_ok}
use go_mock_redis.Hredis.Format.{
  Arg, other, Formatted, argv, refused, Building, plain_byte, string_arg, int_arg, specifier,
  finish, format_from, redis_format_command,
}
use go_mock_redis.Hredis.Format.Template.{
  Word, words_format, words_args, words_value, AreWords, redis_format_command-words,
}
use go_mock_redis.Hredis.Context.{
  Context, redis_connect, redis_append_command, append_formatted, redis_v_append_command,
  redis_get_reply_from_reader, redis_next_in_band_reply_from_reader, redis_block_for_reply,
  reply_to, redis_v_command, redis_command,
}

abbrev pub concat : List Bytes → Bytes
concat [] = []
concat (s ∷ ss) = s ++ concat ss

abbrev pub has_percent : Bytes → Bool
has_percent [] = false
has_percent (c ∷ s) = (c == b'%') || has_percent s

connected-reader : (Obj : Type 0) → (redis_connect Obj).reader ≡ none
unfolding redis_connect
connected-reader Obj = refl

connected-blocks : (Obj : Type 0) → has_bit (redis_connect Obj).flags 0 ≡ true
unfolding redis_connect
connected-blocks Obj = refl

module _ {Obj : Type 0} where
  redis_append_command-concat :
      (c : Context Obj) (cmd : List Bytes)
      → redis_append_command c cmd ≡ record c { o_buf = c.o_buf ++ concat cmd }
  unfolding redis_append_command
  redis_append_command-concat c [] = rw (append-nil c.o_buf) refl
  redis_append_command-concat c (s ∷ cmd) =
      redis_append_command-concat (record c { o_buf = c.o_buf ++ s }) cmd
      ∙ rw (append_assoc c.o_buf s (concat cmd)) refl

  -- A command of such words is put into the output buffer as its arguments one behind the other,
  -- with no lengths and nothing between them, and the rest of the context stays.
  redis_v_append_command-concat :
      (c : Context Obj) (ws : List Word)
      → AreWords ws
      → redis_v_append_command c (words_format ws) (words_args ws)
        ≡ (redis_ok, record c { o_buf = c.o_buf ++ concat (words_value ws) })
  unfolding redis_v_append_command append_formatted
  redis_v_append_command-concat c ws h =
      rw (redis_format_command-words ws h, redis_append_command-concat c (words_value ws)) refl

abbrev is_refused : Formatted → Bool
is_refused (argv cmd) = false
is_refused (refused why) = true

-- The only argument is a slice, which no specifier takes.
specifier-refused :
    (rest : List Arg → Building → Formatted) (d : ℕ) (b : Building)
    → is_refused (specifier rest d (other ∷ []) b) ≡ true
unfolding specifier string_arg int_arg
specifier-refused rest d b = ground arith

format_from-refused :
    (s : Bytes) (b : Building) → is_refused (format_from s (other ∷ []) b) ≡ has_percent s
unfolding format_from finish
format_from-refused [] b = refl
format_from-refused (c ∷ []) b = ground arith
format_from-refused (c ∷ d ∷ s) b = elim (Bool-cases (c == b'%')) [
  | inl e ↦ rw (format_from, e) (specifier-refused (format_from s) d b)
  | inr e ↦ rw (format_from, e) (format_from-refused (d ∷ s) (plain_byte c b))
]

module _ {Obj : Type 0} (f : Makers Obj) (tp_of : Obj → ReplyType) where
  -- A blocking context with no reader.
  no_reader :
      (c : Context Obj)
      → c.reader ≡ none
      → has_bit c.flags 0 ≡ true
      → redis_block_for_reply f tp_of c ≡ fault nil_pointer
  unfolding redis_block_for_reply redis_next_in_band_reply_from_reader redis_get_reply_from_reader
  no_reader c e h = rw (h, e) refl

  reply_to-formatted :
      (c : Context Obj) (result : Formatted)
      → c.reader ≡ none
      → has_bit c.flags 0 ≡ true
      → reply_to f tp_of (append_formatted c result)
        ≡ (if is_refused result then ok (none, c) else fault nil_pointer)
  unfolding reply_to append_formatted
  reply_to-formatted c (refused why) e h = refl
  reply_to-formatted c (argv cmd) e h =
      rw redis_append_command-concat (no_reader (record c { o_buf = c.o_buf ++ concat cmd }) e h)

  -- `RedisCommand` on the context that `RedisConnect` returns gives no reply: with a per cent sign
  -- in the format it returns nil and changes nothing, whatever the arguments are, and without one
  -- it panics at the reader that was never made.
  pub redis_command-connected :
      (format : Bytes) (args : List Arg)
      → redis_command f tp_of (redis_connect Obj) format args
        ≡ (if has_percent format then ok (none, redis_connect Obj) else fault nil_pointer)
  unfolding redis_command redis_v_command redis_v_append_command redis_format_command
  redis_command-connected format args =
      let c = redis_connect Obj in
      let result = redis_format_command format (other ∷ []) in
      rw (← format_from-refused format (record { cur = []; touched = false; done = [] }))
        (reply_to-formatted c result (connected-reader Obj) (connected-blocks Obj))
