-- ===== src/Db/Keyspace.antt =====
-- db/db.go: the keyspace over two hash tables.
-- The dictionary's values are pointers to objects, and nil is `none`. The package's counter of used
-- memory is carried with the database.
pub mod Lookup
pub mod Expire
pub mod Store
use go_mock_redis.Base.{
  ℕ, ◌+◌, ◌-◌, ◌^◌, ◌≡◌, refl, Bool, true, false, not, ◌&&◌, ◌||◌, arith, Bytes, if◌then◌else◌,
  Option, none, some, Run, ok, fault, Fault, ◌>>=◌,
}
use go_mock_redis.Base.Words.{has_bit, set_bit}
use go_mock_redis.Db.Memory.{Value, other, word64}
use go_mock_redis.Db.Hash.{bytes_key}
use go_mock_redis.Db.Dict.{HashTable, new_hash_table, get, delete, is_empty}
use go_mock_redis.Db.Dict
use go_mock_redis.Db.Dict.Insert.{Slot, get_entry, get_val, set_val, add_raw}
use go_mock_redis.Db.Object.{RedisObj, access_time, init_object_lru_or_lfu}

abbrev pub initial_db_size : ℕ
initial_db_size = 16

-- The bits of `LookupType`; `LookupNone` is bit 0.
abbrev pub lookup_none : ℕ
lookup_none = 1

abbrev pub lookup_no_touch_bit : ℕ
lookup_no_touch_bit = 1

abbrev pub lookup_no_stats_bit : ℕ
lookup_no_stats_bit = 3

abbrev pub lookup_write_bit : ℕ
lookup_write_bit = 4

-- The bits of `SetKeyType`.
abbrev pub keep_ttl_bit : ℕ
keep_ttl_bit = 0

abbrev pub already_exists_bit : ℕ
already_exists_bit = 2

abbrev pub does_not_exist_bit : ℕ
does_not_exist_bit = 3

abbrev pub add_or_updated_bit : ℕ
add_or_updated_bit = 4

abbrev pub Dictionary : Type 0
Dictionary = HashTable Bytes (Option RedisObj)

abbrev pub Expires : Type 0
Expires = HashTable Bytes ℕ

pub record RedisDb : Type 0 where
  pub dict : Dictionary
  pub expire : Expires
  pub id : ℕ
  pub avg_ttl : ℕ
  pub stat_key_space_hits : ℕ
  pub stat_key_space_misses : ℕ
  pub used_memory : ℕ

unfoldable pub new : ℕ → ℕ → RedisDb
new used id = record {
  dict = new_hash_table initial_db_size;
  expire = new_hash_table initial_db_size;
  id = id;
  avg_ttl = 0;
  stat_key_space_hits = 0;
  stat_key_space_misses = 0;
  used_memory = used;
}

-- `estimateMemoryUsage` of a pointer to an object and of a uint64.
abbrev pub object_value : Option RedisObj → Value
object_value o = other

abbrev pub expire_value : ℕ → Value
expire_value n = other

-- The assignment `val.LRU = ...` through the pointer that the dictionary holds.
touch : Dictionary → Bytes → RedisObj → Run Dictionary
unfolding get_entry set_val
touch dict key o = do
  slot ← get_entry dict key
  (_, dict') ← set_val object_value 0 dict slot (some (record o { lru = access_time }))
  ok dict'

-- The counters of hits and misses, which are kept for reads without `LookupNoStats`.
unfoldable pub count_lookup : RedisDb → ℕ → Bool → RedisDb
count_lookup db flags exist =
    if has_bit flags lookup_no_stats_bit || has_bit flags lookup_write_bit
    then db
    else if exist
    then record db { stat_key_space_hits = db.stat_key_space_hits + 1 }
    else record db { stat_key_space_misses = db.stat_key_space_misses + 1 }

-- `lookupKey`: `none` is the flag false.
unfoldable pub lookup_key : RedisDb → Bytes → ℕ → Run (RedisDb × Option (Option RedisObj))
unfolding get touch count_lookup
lookup_key db key flags = do
  found ← get db.dict key
  elim found [
    | none ↦ ok (count_lookup db flags false, none)
    | some val ↦
        if has_bit flags lookup_no_touch_bit
        then ok (count_lookup db flags true, some val)
        else elim val [
          | none ↦ fault Fault.nil_pointer
          | some o ↦ do
            dict' ← touch db.dict key o
            ok (
              count_lookup (record db { dict = dict' }) flags true,
              some (some (record o { lru = access_time })),
            )
        ]
  ]

unfoldable pub lookup_key_write : RedisDb → Bytes → Run (RedisDb × Option (Option RedisObj))
unfolding lookup_key
lookup_key_write db key = lookup_key db key (set_bit lookup_none lookup_write_bit)

unfoldable pub lookup_key_read : RedisDb → Bytes → Run (RedisDb × Option (Option RedisObj))
unfolding lookup_key
lookup_key_read db key = lookup_key db key lookup_none

-- `setValue`: the new object takes the access time of the old one.
unfoldable pub set_value : RedisDb → Bytes → RedisObj → Option Slot → Run RedisDb
unfolding get_entry get_val set_val
set_value db key val entry = do
  slot ← elim entry [ none ↦ get_entry db.dict key | some s ↦ ok (some s) ]
  old ← get_val db.dict slot
  elim old [
    | none ↦ fault Fault.nil_pointer
    | some none ↦ fault Fault.nil_pointer
    | some (some o) ↦ do
      (used', dict') ←
          set_val object_value db.used_memory db.dict slot (some (record val { lru = o.lru }))
      ok (record db { dict = dict'; used_memory = used' })
  ]

unfoldable pub add_internal : RedisDb → Bytes → RedisObj → Bool → Run RedisDb
unfolding add_raw set_val set_value init_object_lru_or_lfu
add_internal db key val update_if_exist = do
  (used', dict', de, exist) ← add_raw none db.used_memory db.dict key
  let db' = record db { dict = dict'; used_memory = used' }
  if exist && update_if_exist then set_value db' key val (some de) else (do
    (used'', dict'') ←
        set_val object_value used' dict' (some de) (some (init_object_lru_or_lfu val))
    ok (record db { dict = dict''; used_memory = used'' }))

unfoldable pub add : RedisDb → Bytes → RedisObj → Run RedisDb
unfolding add_internal
add db key val = add_internal db key val false

unfoldable pub rm_expire : RedisDb → Bytes → Run RedisDb
unfolding get delete
rm_expire db key = do
  found ← get db.dict key
  elim found [
    | none ↦ ok db
    | some _ ↦ do
      (used', expire', _) ← delete expire_value db.used_memory db.expire key
      ok (record db { expire = expire'; used_memory = used' })
  ]

unfoldable pub set_expire : RedisDb → Bytes → ℕ → Run RedisDb
unfolding get Dict.set_key
set_expire db key expire = do
  found ← get db.dict key
  elim found [
    | none ↦ ok db
    | some _ ↦ do
      (used', expire') ← Dict.set_key expire_value db.used_memory db.expire key expire
      ok (record db { expire = expire'; used_memory = used' })
  ]

-- `GetExpire`, as the bit pattern of an int64.
abbrev pub no_expire : ℕ
no_expire = word64 - 1

unfoldable pub get_expire : RedisDb → Bytes → Run ℕ
unfolding is_empty get
get_expire db key =
    if is_empty db.expire
    then ok no_expire
    else (do found ← get db.expire key; elim found [ none ↦ ok no_expire | some when ↦ ok when ])

unfoldable pub generic_delete : RedisDb → Bytes → Run (RedisDb × Bool)
unfolding delete
generic_delete db key = do
  (used', dict', exist) ← delete object_value db.used_memory db.dict key
  let db' = record db { dict = dict'; used_memory = used' }
  if exist
      then (do
        (used'', expire', _) ← delete expire_value used' db.expire key
        ok (record db' { expire = expire'; used_memory = used'' }, true))
      else ok (db', false)

-- What `SetKey` finds out about the key: `keyFound` is 0, -1 or 1.
pub data KeyFound : Type 0 where
  missing unknown found : KeyFound

unfoldable pub find_out : RedisDb → Bytes → ℕ → Run (RedisDb × KeyFound)
unfolding lookup_key_write
find_out db key flags =
    if has_bit flags already_exists_bit
    then ok (db, found)
    else if has_bit flags add_or_updated_bit
    then ok (db, unknown)
    else if has_bit flags does_not_exist_bit
    then ok (db, missing)
    else (do
      (db', val) ← lookup_key_write db key
      ok (db', elim val [ none ↦ missing | some _ ↦ found ]))

unfoldable pub set_key : RedisDb → Bytes → RedisObj → ℕ → Run RedisDb
unfolding find_out add add_internal set_value rm_expire
set_key db key val flags = do
  (db', key_found) ← find_out db key flags
  db'' ← elim key_found [
    | missing ↦ add db' key val
    | unknown ↦ add_internal db' key val true
    | found ↦ set_value db' key val none
  ]
  if has_bit flags keep_ttl_bit then ok db'' else rm_expire db'' key
