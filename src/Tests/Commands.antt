-- ===== src/Tests/Commands.antt =====
-- The string commands of node/strcmd.go at concrete inputs.
use go_mock_redis.Base.{
  ◌≡◌, ◌^◌, ◌<◌, refl, arith, [], ◌∷◌, ◌++◌, none, some, true, false, Bytes, codes, crlf, ok,
  Returns, inr, ◌>>=◌,
}
use go_mock_redis.Base.Tests.{bytes_eq}
use go_mock_redis.Base.Text.{IsAscii}
use go_mock_redis.Db.Dict.{at}
use go_mock_redis.Db.Hash.{bytes_key}
use go_mock_redis.Db.Object.{RedisObj, encoding_object, uint64}
use go_mock_redis.Db.Keyspace
use go_mock_redis.Db.Keyspace.{
  RedisDb, keep_ttl_bit, already_exists_bit, does_not_exist_bit, add_or_updated_bit,
}
use go_mock_redis.Db.Keyspace.Lookup.{accessed}
use go_mock_redis.Node.Client.{Client, prepare_client_to_write}
use go_mock_redis.Node.Client.Replies.{IsWritable, IsText, sent, bulk}
use go_mock_redis.Node.Options.{has, command_set, seconds, parse_extended_string_arguments_or_reply}
use go_mock_redis.Node.Options.Exclusive.{IsExclusive}
use go_mock_redis.Node.Options.Parser.{parse-IsExclusive}
use go_mock_redis.Node.StrCmd.{
  StrCmd, get_expire_milliseconds_or_reply, set_generic_command, get_generic_command, set,
}
use go_mock_redis.Node.StrCmd.Expire.{get_expire-limit, set_generic_command-text_expire}
use go_mock_redis.Node.StrCmd.Stores.{Stored}
use go_mock_redis.Node.StrCmd.Outcomes.{set_generic_existing, set_generic_missing}
use go_mock_redis.Node.StrCmd.Reads.{Names, get-set}
use go_mock_redis.Node.Options.{Parsed}
use go_mock_redis.Tests.Keyspace.{
  foo, hello, text, nothing, holds_hello, db₀, db₁, db₀-IsDb, db₁-IsDb,
}

-- A client that has sent SET foo hello.
abbrev client : Client
client = record {
  flags = 0;
  connected = true;
  argv = text (codes "SET") ∷ text foo ∷ hello ∷ [];
  argc = 3;
  command = some (codes "set");
  written = [];
}

client-IsWritable : IsWritable client
unfolding prepare_client_to_write
client-IsWritable = record { live = refl; prepared = refl }

text-IsText : (s : Bytes) → IsText (text s) s
unfolding encoding_object
text-IsText s = record { encoded = refl; text = refl }

client-Names : Names client foo
unfolding at
client-Names = record { argument = text foo; is_there = refl; text = text-IsText foo }

accessed-IsText : IsText (accessed hello) (codes "hello")
unfolding encoding_object
accessed-IsText = record { encoded = refl; text = refl }

hello-IsAscii : IsAscii (codes "hello")
hello-IsAscii = (omega arith, (omega arith, (omega arith, (omega arith, (omega arith, tt)))))

abbrev empty : StrCmd
empty = record { c = client; db = db₀ }

abbrev filled : StrCmd
filled = record { c = client; db = db₁ }

parse-IsExclusive_example :
    Returns
      (parse_extended_string_arguments_or_reply client 0 command_set)
      (λ r. IsExclusive r.1.ret_flags)
parse-IsExclusive_example = parse-IsExclusive client command_set (omega arith) refl

abbrev number : RedisObj
number = record (text []) { value = uint64 60 }

get_expire-limit_example :
    (get_expire_milliseconds_or_reply client number seconds ≡ ok (client, some 60000))
    × (60000 < 2 ^ 63)
unfolding encoding_object
get_expire-limit_example =
    get_expire-limit client number 60 seconds (record { encoded = refl; number = refl })
      (omega arith) (omega arith)

set_generic_command-text_expire_example :
    set_generic_command empty 4 foo hello (some (text (codes "60"))) seconds
    ≡ ok (record { c = sent client (codes "invalid expire time in SETEX" ++ crlf); db = db₀ })
set_generic_command-text_expire_example =
    set_generic_command-text_expire empty 4 foo hello (text (codes "60")) seconds (codes "60")
      client-IsWritable (text-IsText _)

set_generic_existing_example :
    Returns
      (set_generic_command filled 0 foo hello none seconds)
      (Stored 1 holds_hello 0 nothing filled 0 foo hello)
unfolding bytes_eq has
set_generic_existing_example =
    set_generic_existing filled 0 foo hello seconds client-IsWritable db₁-IsDb (accessed hello) refl
      refl

set_generic_missing_example :
    Returns
      (set_generic_command empty 0 foo hello none seconds)
      (Stored 0 nothing 0 nothing empty 0 foo hello)
unfolding has db₀ Keyspace.new
set_generic_missing_example =
    set_generic_missing empty 0 foo hello seconds client-IsWritable db₀-IsDb refl refl refl

get-set_example :
    Returns
      (set empty >>= get_generic_command)
      (λ r. (r.1 ≡ true) × (r.0.c ≡ sent client (codes "OK" ++ crlf ++ bulk (codes "hello"))))
unfolding at db₀ Keyspace.new
get-set_example =
    get-set empty foo hello client-Names refl refl client-IsWritable db₀-IsDb (inr (refl, refl))
      (codes "hello") (text-IsText _) hello-IsAscii (omega arith)

abbrev start : Parsed
start = record { ret_flags = 0; expire = none; unit = seconds; ok_flag = false }
