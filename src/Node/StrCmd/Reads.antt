-- ===== src/Node/StrCmd/Reads.antt =====
-- node/strcmd.go: GET, and GET after SET.
use mathlib.Core.Path.{◌∙◌}
use go_mock_redis.Base.{
  ℕ, ◌+◌, ◌^◌, ◌<◌, ◌≡◌, ap, refl, true, false, ◌∷◌, ◌++◌, Bytes, codes, crlf, Option, none, some,
  ok, ◌>>=◌, inl, inr, ◌⊎◌, Returns, length,
}
use go_mock_redis.Base.Text.{IsAscii}
use go_mock_redis.Db.Dict.{at}
use go_mock_redis.Db.Dict.Write.{update}
use go_mock_redis.Db.Hash.{bytes_key}
use go_mock_redis.Db.Object.{RedisObj, encoding_object, access_time}
use go_mock_redis.Db.Keyspace.{RedisDb, lookup_key_read, lookup_none}
use go_mock_redis.Db.Keyspace.Lookup.{IsDb, lookup_key-Hit, lookup_key_miss, accessed}
use go_mock_redis.Node.Client.{Client, as_string, add_reply_bulk, shared_null_3}
use go_mock_redis.Node.Client.Replies.{
  IsText, IsWritable, sent, sent_twice, sent-IsWritable, add_reply-sent, add_reply_bulk-ascii, bulk,
}
use go_mock_redis.Node.Options.{seconds, parse_extended_string_arguments_or_reply, has}
use go_mock_redis.Node.StrCmd.{StrCmd, key_at, get_generic_command, set, set_generic_command}
use go_mock_redis.Node.StrCmd.Stores.{Stored, stored, shared_null_3-IsText}
use go_mock_redis.Node.StrCmd.Outcomes.{set_generic_existing, set_generic_missing}

-- The first argument of the command is the key.
pub record Names (c : Client) (key : Bytes) : Type 0 where
  pub argument : RedisObj
  pub is_there : at c.argv 1 ≡ ok argument
  pub text : IsText argument key

pub key_at-Names : (c : Client) (key : Bytes) → Names c key → key_at c 1 ≡ ok key
unfolding key_at as_string
key_at-Names c key names = rw (names.is_there, ◌>>=◌, names.text.text) refl

restamped-IsText :
    (o : RedisObj) (s : Bytes) (time : ℕ) → IsText o s → IsText (record o { lru = time }) s
unfolding encoding_object
restamped-IsText o s time t = record { encoded = t.encoded; text = t.text }

get_run :
    (cmd : StrCmd) (key : Bytes) (db' : RedisDb) (o : RedisObj) (c' : Client)
    → key_at cmd.c 1 ≡ ok key
    → lookup_key_read cmd.db key ≡ ok (db', some (some o))
    → add_reply_bulk cmd.c o ≡ ok c'
    → get_generic_command cmd ≡ ok (record { c = c'; db = db' }, true)
unfolding get_generic_command
get_run cmd key db' o c' k looked replied = rw (k, ◌>>=◌, looked, replied) refl

module _ {n m : ℕ} {f : Bytes → Option (Option RedisObj)} {g : Bytes → Option ℕ} (cmd : StrCmd)
    (key : Bytes) (names : Names cmd.c key) (w : IsWritable cmd.c)
    (valid : IsDb n f m g cmd.db) where
  -- GET of a key that holds an ASCII text of less than 2^63 bytes, by a client that may be written
  -- to, sends the text as a bulk string, reports success, counts a hit, and changes nothing of the
  -- objects and of the expire times but the access time of the object.
  get_hit :
      (o : RedisObj) (s : Bytes)
      → f key ≡ some (some o)
      → IsText o s
      → IsAscii s
      → length s < 2 ^ 63
      → Returns (get_generic_command cmd) (λ r.
        (r.1 ≡ true)
        × (r.0.c ≡ sent cmd.c (bulk s))
        × IsDb n (update f key (some (some (accessed o)))) m g r.0.db
        × (r.0.db.stat_key_space_hits ≡ cmd.db.stat_key_space_hits + 1))
  unfolding lookup_key_read
  get_hit o s held t ascii short =
      let (r, run, hit) = lookup_key-Hit cmd.db key lookup_none valid o held refl in
      let looked : lookup_key_read cmd.db key ≡ ok (r.0, some (some (accessed o))) =
        run ∙ ap (λ v. ok (r.0, v)) hit.returns in
      let replied =
        add_reply_bulk-ascii cmd.c (accessed o) s w (restamped-IsText o s access_time t) ascii
          short in
      (
        (record { c = sent cmd.c (bulk s); db = r.0 }, true),
        get_run cmd key r.0 (accessed o) _ (key_at-Names cmd.c key names) looked replied,
        (refl, refl, hit.after, hit.hits),
      )

  -- GET of an absent key, by a client that may be written to, sends null, reports failure, and
  -- changes nothing of the database but the counter of misses.
  get_miss :
      f key ≡ none
      → get_generic_command cmd
        ≡ ok (
          record {
            c = sent cmd.c (b'_' ∷ crlf);
            db = record cmd.db { stat_key_space_misses = cmd.db.stat_key_space_misses + 1 };
          },
          false,
        )
  unfolding get_generic_command lookup_key_read
  get_miss gone =
      rw
        (
          key_at-Names cmd.c key names,
          ◌>>=◌,
          lookup_key_miss cmd.db key lookup_none valid gone,
          add_reply-sent cmd.c w shared_null_3 _ shared_null_3-IsText,
        )
        refl

-- SET with a key and a value only has no options to parse.
set_run :
    (cmd : StrCmd) (key : Bytes) (val : RedisObj)
    → Names cmd.c key
    → cmd.c.argc ≡ 3
    → at cmd.c.argv 2 ≡ ok val
    → set cmd ≡ set_generic_command cmd 0 key val none seconds
unfolding set parse_extended_string_arguments_or_reply
set_run cmd key val names three value =
    rw (three, parse_extended_string_arguments_or_reply, ◌>>=◌, key_at-Names cmd.c key names, value)
      refl

-- The key is absent, on a dictionary that is not rehashing, or holds an object.
abbrev pub CanStore : (Bytes → Option (Option RedisObj)) → Bytes → RedisDb → Type 0
CanStore f key db =
    ((o : RedisObj) × (f key ≡ some (some o))) ⊎ ((db.dict.rehashing_idx ≡ none) × (f key ≡ none))

module _ {n m : ℕ} {f : Bytes → Option (Option RedisObj)} {g : Bytes → Option ℕ} (cmd : StrCmd)
    (key : Bytes) (val : RedisObj) (names : Names cmd.c key) (three : cmd.c.argc ≡ 3)
    (value : at cmd.c.argv 2 ≡ ok val) (w : IsWritable cmd.c) (valid : IsDb n f m g cmd.db)
    (free : CanStore f key cmd.db) where
  set-Stored : Returns (set cmd) (Stored n f m g cmd 0 key val)
  unfolding has
  set-Stored = elim free [
    | inl (o, held) ↦
        let (r, run, end) = set_generic_existing cmd 0 key val seconds w valid o held refl in
        (r, set_run cmd key val names three value ∙ run, end)
    | inr (rest, gone) ↦
        let (r, run, end) = set_generic_missing cmd 0 key val seconds w valid rest gone refl in
        (r, set_run cmd key val names three value ∙ run, end)
  ]

  -- SET of an ASCII text of less than 2^63 bytes without options, by a client that may be written
  -- to, followed by GET of the same key sends `OK` and the line end and then the text as a bulk
  -- string, and GET reports success. The key holds an object, or is absent on a dictionary that is
  -- not rehashing.
  pub get-set :
      (s : Bytes)
      → IsText val s
      → IsAscii s
      → length s < 2 ^ 63
      → Returns
          (set cmd >>= get_generic_command)
          (λ r. (r.1 ≡ true) × (r.0.c ≡ sent cmd.c (codes "OK" ++ crlf ++ bulk s)))
  unfolding has
  get-set s t ascii short =
      let (r, run, end) = set-Stored in
      let line = codes "OK" ++ crlf in
      let next : StrCmd = record { c = sent cmd.c line; db = r.db } in
      let names' : Names next.c key = record {
        argument = names.argument;
        is_there = names.is_there;
        text = names.text;
      } in
      let held : update f key (some (some (stored val))) key ≡ some (some (stored val)) =
        rw (bytes_key.equal_refl key) refl in
      let (q, run', end') =
        get_hit next key names' (sent-IsWritable cmd.c w line) end.after (stored val) s held
          (restamped-IsText val s access_time t) ascii short in
      let same : r ≡ next = ap (λ c. record { c = c; db = r.db }) end.reply in
      (
        q,
        rw (run, ◌>>=◌) (ap get_generic_command same ∙ run'),
        (end'.0, end'.1 ∙ sent_twice cmd.c line (bulk s)),
      )
