-- ===== src/Db/Object.antt =====
-- db/types.go, and of db/lru.go and db/evict.go what sets an object's access time.
use go_mock_redis.Base.{
  ℕ, ◌+◌, ◌-◌, ◌*◌, ◌/◌, ◌%◌, ◌^◌, ◌≡◌, refl, Bool, true, false, Bytes, leb, ◌==◌, if◌then◌else◌,
  Run, ok, fault, Fault,
}

pub data ObjectType : Type 0 where
  string_type list_type set_type z_set_type hash_type stream_type : ObjectType

pub data EncodingType : Type 0 where
  encoding_raw encoding_int encoding_ht encoding_zip_map encoding_linked_list : EncodingType
  encoding_zip_list encoding_int_set encoding_skip_list encoding_emb_str : EncodingType
  encoding_quick_list encoding_stream encoding_list_pack : EncodingType

-- The dynamic types of `RedisObj.Value` that the code asserts. An int64 is its bit pattern.
pub data Any : Type 0 where
  str : Bytes → Any
  uint64 : ℕ → Any
  int64 : ℕ → Any
  opaque : Any

pub record RedisObj : Type 0 where
  pub type : ObjectType
  pub encoding : EncodingType
  pub lru : ℕ
  pub value : Any

unfoldable pub new_redis_obj : ObjectType → EncodingType → Any → ℕ → RedisObj
new_redis_obj tp encoding value lru = record {
  type = tp;
  encoding = encoding;
  lru = lru;
  value = value;
}

-- `EncodingObject`.
unfoldable pub encoding_object : RedisObj → Bool
encoding_object o = elim o.encoding [ encoding_raw ↦ true | encoding_emb_str ↦ true | _ ↦ false ]

abbrev pub lru_clock_resolution : ℕ
lru_clock_resolution = 1000

abbrev pub lru_clock_max : ℕ
lru_clock_max = 2 ^ 24 - 1

-- The wall clock in milliseconds is an argument; `& LRU_CLOCK_MAX` keeps 24 bits.
unfoldable pub get_lru_clock : ℕ → ℕ
get_lru_clock now = now / lru_clock_resolution % 2 ^ 24

unfoldable pub lru_clock : ℕ → ℕ → ℕ → Run ℕ
unfolding get_lru_clock
lru_clock now hz srv_clock =
    if hz == 0
    then fault Fault.division_by_zero
    else ok (if leb (1000 / hz) lru_clock_resolution then srv_clock else get_lru_clock now)

-- The access time that `lruClock(100, 100)` gives: 1000 / 100 is below the resolution.
abbrev pub access_time : ℕ
access_time = 100

lru_clock-access_time : (now : ℕ) → lru_clock now 100 100 ≡ ok access_time
unfolding lru_clock
lru_clock-access_time now = refl

unfoldable pub init_object_lru_or_lfu : RedisObj → RedisObj
init_object_lru_or_lfu o = record o { lru = access_time }

-- `estimateObjectIdleTime`, for access times of at most 24 bits.
unfoldable pub estimate_object_idle_time : ℕ → ℕ → ℕ → RedisObj → Run ℕ
unfolding lru_clock
estimate_object_idle_time now hz srv_clock o = elim (lru_clock now hz srv_clock) [
  | fault e ↦ fault e
  | ok clock ↦ ok (
      if leb o.lru clock
      then (clock - o.lru) * lru_clock_resolution
      else (clock + (lru_clock_max - o.lru)) * lru_clock_resolution)
]
