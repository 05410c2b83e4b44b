-- ===== src/Db/Keyspace/Lookup.antt =====
-- db/db.go, `lookupKey`: what a lookup returns, counts and touches.
use go_mock_redis.Base.{
  ℕ, ◌+◌, ◌≡◌, refl, true, false, ◌||◌, arith, Bytes, if◌then◌else◌, Option, none, some, ok, ◌>>=◌,
  Returns,
}
use go_mock_redis.Base.Words.{has_bit}
use go_mock_redis.Db.Hash.{bytes_key}
use go_mock_redis.Db.Dict.Insert.Pointers.{Rewritten, set_val-Rewritten}
use go_mock_redis.Db.Dict.Insert.Entry.{get_entry-Found}
use go_mock_redis.Db.Dict.Steps.{Models}
use go_mock_redis.Db.Dict.Tables.{get-Models}
use go_mock_redis.Db.Dict.Write.{update}
use go_mock_redis.Db.Object.{RedisObj, access_time}
use go_mock_redis.Db.Keyspace.{
  Dictionary, RedisDb, object_value, touch, count_lookup, lookup_no_stats_bit, lookup_write_bit,
  lookup_no_touch_bit, lookup_key,
}

-- The database stands for a map from keys to objects and a map from keys to expire times.
pub record IsDb (n : ℕ) (f : Bytes → Option (Option RedisObj)) (m : ℕ) (g : Bytes → Option ℕ)
    (db : RedisDb) : Type 0 where
  pub objects : Models n f db.dict
  pub times : Models m g db.expire

-- An object that has been accessed.
abbrev pub accessed : RedisObj → RedisObj
accessed o = record o { lru = access_time }

touch-Rewritten :
    {n : ℕ} {f : Bytes → Option (Option RedisObj)} (dict : Dictionary) (key : Bytes) (o : RedisObj)
    → Models n f dict
    → f key ≡ some (some o)
    → Returns (touch dict key o) (Rewritten key n f (some (accessed o)) dict)
unfolding touch
touch-Rewritten dict key o m held =
    let (slot, run, found) = get_entry-Found key dict m held in
    let (r, run', w) =
      set_val-Rewritten key object_value 0 (some (accessed o)) dict found.slot m found.points in
    (r.1, rw (run, ◌>>=◌, found.is_slot, run'), w)

-- A lookup is counted unless it is for writing or without statistics.
abbrev pub counts : ℕ → ℕ
counts flags = if has_bit flags lookup_no_stats_bit || has_bit flags lookup_write_bit then 0 else 1

count_lookup_hit :
    (db : RedisDb) (flags : ℕ)
    → ((count_lookup db flags true).dict ≡ db.dict)
      × ((count_lookup db flags true).expire ≡ db.expire)
      × ((count_lookup db flags true).stat_key_space_hits ≡ db.stat_key_space_hits + counts flags)
      × ((count_lookup db flags true).stat_key_space_misses ≡ db.stat_key_space_misses)
      × ((count_lookup db flags true).used_memory ≡ db.used_memory)
unfolding count_lookup
count_lookup_hit db flags = ground arith

-- The database after a lookup that found an object.
pub record Hit (n : ℕ) (f : Bytes → Option (Option RedisObj)) (m : ℕ) (g : Bytes → Option ℕ)
    (key : Bytes) (o : RedisObj) (flags : ℕ) (db : RedisDb) (r : RedisDb × Option (Option RedisObj))
    : Type 0 where
  pub returns : r.1 ≡ some (some (accessed o))
  pub after : IsDb n (update f key (some (some (accessed o)))) m g r.0
  pub hits : r.0.stat_key_space_hits ≡ db.stat_key_space_hits + counts flags
  pub misses : r.0.stat_key_space_misses ≡ db.stat_key_space_misses
  pub used : r.0.used_memory ≡ db.used_memory

module _ {n m : ℕ} {f : Bytes → Option (Option RedisObj)} {g : Bytes → Option ℕ} (db : RedisDb)
    (key : Bytes) (flags : ℕ) (valid : IsDb n f m g db) where
  -- A lookup that may touch, of a key that holds an object, returns the object, also where the
  -- key's expire time has passed, sets its access time and nothing else of the map of objects and
  -- of the map of expire times, and counts a hit unless it is for writing or without statistics.
  pub lookup_key-Hit :
      (o : RedisObj)
      → f key ≡ some (some o)
      → has_bit flags lookup_no_touch_bit ≡ false
      → Returns (lookup_key db key flags) (Hit n f m g key o flags db)
  unfolding lookup_key
  lookup_key-Hit o held may_touch =
      let (dict', run, w) = touch-Rewritten db.dict key o valid.objects held in
      let db' : RedisDb = record db { dict = dict' } in
      let (same_dict, same_expire, hits, misses, used) = count_lookup_hit db' flags in
      (
        (count_lookup db' flags true, some (some (accessed o))),
        rw (get-Models db.dict key valid.objects, held, ◌>>=◌, may_touch, run),
        record {
          returns = refl;
          after = record { objects = rw same_dict w.models; times = rw same_expire valid.times };
          hits = hits;
          misses = misses;
          used = used;
        },
      )

  -- A lookup of a key that is not in the map reports that, and changes nothing but the counter of
  -- misses, which it raises unless it is for writing or without statistics.
  pub lookup_key_miss :
      f key ≡ none
      → (lookup_key db key flags
          ≡ ok
              (record db { stat_key_space_misses = db.stat_key_space_misses + counts flags }, none))
  unfolding lookup_key count_lookup
  lookup_key_miss absent = rw (get-Models db.dict key valid.objects, absent) (ground arith)
