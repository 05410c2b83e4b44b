-- ===== src/Db/Eviction.antt =====
-- db/lru.go, db/evict.go: the pool of keys to evict, and the eviction.
pub mod Pool
pub mod Endless
use go_mock_redis.Base.{
  ℕ, zero, suc, ◌+◌, ◌-◌, ◌^◌, ◌%◌, ◌≡◌, refl, Bool, true, false, not, ◌&&◌, List, [], ◌∷◌, ◌++◌,
  arith, Bytes, ltb, leb, ◌==◌, if◌then◌else◌, Option, none, some, take, drop, set, length, Run, ok,
  fault, Fault, ◌>>=◌,
}
use go_mock_redis.Db.Memory.{word64, max_memory}
use go_mock_redis.Db.Object.{RedisObj, estimate_object_idle_time}
use go_mock_redis.Db.Hash.{Key, bytes_key}
use go_mock_redis.Db.Dict
use go_mock_redis.Db.Dict.{len}
use go_mock_redis.Db.Dict.Insert.{get_some_keys}
use go_mock_redis.Db.Keyspace.{RedisDb, Dictionary, generic_delete}

abbrev pub eviction_pool_size : ℕ
eviction_pool_size = 4

abbrev pub memory_samples : ℕ
memory_samples = 5

-- An entry with the empty key is an empty slot.
pub record PoolEntry : Type 0 where
  pub key : Bytes
  pub idle : ℕ

abbrev pub is_free : PoolEntry → Bool
is_free e = elim e.key [ [] ↦ true | _ ∷ _ ↦ false ]

pub record Lru : Type 0 where
  pub ep : List PoolEntry
  pub db : RedisDb
  pub hz : ℕ
  pub lru_clock : ℕ

abbrev pub free_entry : PoolEntry
free_entry = record { key = []; idle = 0 }

-- `NewLRU`.
unfoldable pub new_lru : RedisDb → ℕ → ℕ → Lru
new_lru db hz lru_clock = record {
  ep = free_entry ∷ free_entry ∷ free_entry ∷ free_entry ∷ [];
  db = db;
  hz = hz;
  lru_clock = lru_clock;
}

-- The first slot that is empty or whose idle time is not lower, or the size of the pool.
unfoldable pub slot_for : ℕ → List PoolEntry → ℕ
slot_for idle [] = 0
slot_for idle (e ∷ es) =
    let rest = slot_for idle es in if not (is_free e) && ltb e.idle idle then suc rest else 0

-- `copy` of one slice over another.
abbrev pub overwrite {ℓ} : {A : Type ℓ} → List A → List A → List A
overwrite [] src = []
overwrite (d ∷ ds) [] = d ∷ ds
overwrite (d ∷ ds) (s ∷ ss) = s ∷ overwrite ds ss

-- Whether the slot at an index is empty; there is none behind the last one.
abbrev pub free_at : List PoolEntry → ℕ → Bool
free_at [] k = false
free_at (e ∷ es) zero = is_free e
free_at (e ∷ es) (suc k) = free_at es k

-- The body of the loop of `EvictionPoolPopulate`, once the idle time is known.
unfoldable pub insert_key : List PoolEntry → Bytes → ℕ → List PoolEntry
unfolding slot_for
insert_key ep key idle =
    let k = slot_for idle ep in
    let new : PoolEntry = record { key = key; idle = idle } in
    let last_free = free_at ep (eviction_pool_size - 1) in
    if (k == 0) && not last_free
    then ep
    else if free_at ep k
    then set ep k new
    else if last_free
    then set (take (k + 1) ep ++ overwrite (drop (k + 1) ep) (drop k ep)) k new
    else set (overwrite (take (k - 1) ep) (take (k - 1) (drop 1 ep)) ++ drop (k - 1) ep) (k - 1) new

unfoldable pub populate_keys : ℕ → Dictionary → List Bytes → Lru → Run Lru
unfolding Dict.get estimate_object_idle_time insert_key
populate_keys now key_dict [] lru = ok lru
populate_keys now key_dict (key ∷ keys) lru = do
  found ← Dict.get key_dict key
  elim found [
    | none ↦ fault Fault.nil_pointer
    | some none ↦ fault Fault.nil_pointer
    | some (some o) ↦ do
      idle ← estimate_object_idle_time now lru.hz lru.lru_clock o
      populate_keys now key_dict keys (record lru { ep = insert_key lru.ep key idle })
  ]

-- `EvictionPoolPopulate`, with the random draws of the sampling and the wall clock.
unfoldable pub eviction_pool_populate : List ℕ → ℕ → Dictionary → Dictionary → Lru → Run Lru
unfolding get_some_keys populate_keys
eviction_pool_populate draws now sample_dict key_dict lru = do
  keys ← get_some_keys draws sample_dict memory_samples
  populate_keys now key_dict keys lru

pub data EvictStatus : Type 0 where
  evict_fail evict_running evict_ok : EvictStatus

-- `a < b` for the bit patterns of two int64.
abbrev pub signed_less : ℕ → ℕ → Bool
signed_less a b = ltb ((a + 2 ^ 63) % word64) ((b + 2 ^ 63) % word64)

-- `getMaxmemoryState`: what has to be freed, or nothing when the limit is kept.
unfoldable pub get_maxmemory_state : ℕ → Option ℕ
get_maxmemory_state used =
    if not (signed_less max_memory used) then none else some (used - max_memory)

-- One search for the best key, from the end of the pool.
unfoldable pub best_key : RedisDb → List PoolEntry → Run (Option Bytes)
unfolding Dict.get
best_key db [] = ok none
best_key db (e ∷ es) = do
  later ← best_key db es
  elim later [
    | some key ↦ ok (some key)
    | none ↦ if is_free e then ok none else (do
      when ← Dict.get db.expire e.key
      ok (elim when [ none ↦ none | some _ ↦ some e.key ]))
  ]

-- The inner loop of `PerformEvictions`, with the rounds that are left; `none` when the keyspace is empty.
unfoldable pub search_key : ℕ → Lru → Run (Option Bytes)
unfolding best_key len
search_key zero lru = fault Fault.no_fuel
search_key (suc rounds) lru =
    let again = search_key rounds lru in
    if len lru.db.dict == 0
    then ok none
    else (do best ← best_key lru.db lru.ep; elim best [ none ↦ again | some key ↦ ok (some key) ])

-- The outer loop.
unfoldable pub evict : ℕ → ℕ → ℕ → Lru → Run Lru
unfolding search_key generic_delete
evict zero to_free freed lru = fault Fault.no_fuel
evict (suc rounds) to_free freed lru = elim (signed_less freed to_free) [
  | false ↦ ok lru
  | true ↦ do
    best ← search_key rounds lru
    elim best [
      | none ↦ evict rounds to_free freed lru
      | some key ↦ do
        (db', _) ← generic_delete lru.db key
        evict rounds to_free ((freed + (lru.db.used_memory + (word64 - db'.used_memory))) % word64)
            (record lru { db = db' })
    ]
]

unfoldable pub perform_evictions : ℕ → Lru → Run (Lru × EvictStatus)
unfolding get_maxmemory_state evict
perform_evictions rounds lru = elim (get_maxmemory_state lru.db.used_memory) [
  | none ↦ ok (lru, evict_ok)
  | some to_free ↦ do lru' ← evict rounds to_free 0 lru; ok (lru', evict_ok)
]
