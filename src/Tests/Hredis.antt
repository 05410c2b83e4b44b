-- ===== src/Tests/Hredis.antt =====
-- The reader of deps/hredis and its commands at concrete data.
use go_mock_redis.Base.{fault, out_of_range, false}
use go_mock_redis.Base.Signed.{pos}
use go_mock_redis.Cli.{RedisCliCfg, ReplyFields, int_is, handshake}
use go_mock_redis.Cli.Handshake.{connected, no_reply, handshake-connected}
use go_mock_redis.Base.{
  ◌≡◌, refl, inl, false, none, some, List, [], ◌∷◌, arith, Bytes, codes, ok, fault,
}
use go_mock_redis.Base.Signed.{pos, negsuc}
use go_mock_redis.Hredis.{redis_ok, string, Makers, Reader}
use go_mock_redis.Hredis.Replies.{type_of, get_reply}
use go_mock_redis.Hredis.Replies.Silent.{IsNew, IsQuiet, get_reply-IsQuiet}
use go_mock_redis.Hredis.Replies.Stuck.{typed, reader, calls, calls-stuck}
use go_mock_redis.Hredis.{seek_newline}
use go_mock_redis.Hredis.Newline.{index_of, seek_newline-cut}
use go_mock_redis.Base.Lines.{cut}
use go_mock_redis.Hredis.Format.{argv, redis_format_command}
use go_mock_redis.Hredis.Format.Template.{
  Word, literal, of_text, of_int, words_format, words_args, words_value, redis_format_command-words,
}

-- Objects are texts.
abbrev texts : Makers Bytes
texts = record {
  create_string = some λ t s n. some s;
  create_array = none;
  create_integer = none;
  create_double = none;
  create_nil = none;
  create_bool = none;
  reads_float = λ s. false;
}

abbrev fresh : Reader Bytes
fresh = reader (codes "(12\r\n") 0 5 (pos 0) []

fresh-IsNew : IsNew fresh
fresh-IsNew = record { at_start = refl; no_task = refl; no_reply = refl }

get_reply-IsQuiet_example : IsQuiet (get_reply texts fresh)
get_reply-IsQuiet_example = get_reply-IsQuiet texts fresh (inl fresh-IsNew)

status_type : type_of b'$' ≡ some string
unfolding type_of
status_type = refl

calls-stuck_example :
    calls texts 3 (reader (codes "$2") 0 2 (pos 0) [])
    ≡ ok (redis_ok, reader (codes "$2") 1 1 (pos 0) (typed string ∷ []))
calls-stuck_example = calls-stuck texts 3 b'$' (codes "2") (pos 0) string status_type tt

-- `SET k%d %s`
abbrev set_words : List Word
set_words =
    (literal b'S', literal b'E' ∷ literal b'T' ∷ [])
    ∷ (literal b'k', of_int (negsuc 0) ∷ [])
    ∷ (of_text (b'a' ∷ b' ' ∷ b'%' ∷ []), [])
    ∷ []

redis_format_command-words_example :
    redis_format_command (words_format set_words) (words_args set_words)
    ≡ argv (words_value set_words)
redis_format_command-words_example = redis_format_command-words set_words (
  ((refl, refl, omega arith), ((refl, refl, omega arith), ((refl, refl, omega arith), tt))),
  (((refl, refl, omega arith), (tt, tt)), ((tt, tt), tt)),
)

seek_newline-cut_example : seek_newline (codes "a\r\n") ≡ index_of 0 (cut (codes "a\r\n"))
seek_newline-cut_example = seek_newline-cut (codes "a\r\n")

-- Settings with a database to select.
abbrev settings : RedisCliCfg
settings = record {
  host_ip = codes "127.0.0.1";
  host_port = pos 6379;
  input_db_num = pos 2;
  auth = [];
  user = [];
  host_socket = [];
  db_num = pos 0;
  in_multi = false;
  eval_ldb = false;
  pubsub_mode = false;
  prompt = [];
  server_version = [];
  resp2 = pos 0;
  resp3 = pos 0;
  current_resp3 = false;
}

abbrev text_fields : ReplyFields Bytes
text_fields = record {
  tp = λ s. string;
  text_of = λ s. s;
  elements = λ s. 0;
  element = λ s i. fault out_of_range;
}

handshake-connected_example :
    handshake texts text_fields (connected texts text_fields settings [])
    ≡ no_reply texts text_fields settings []
unfolding int_is
handshake-connected_example = handshake-connected texts text_fields settings []
