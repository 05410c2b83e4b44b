-- ===== src/Tests/Eviction.antt =====
-- The eviction of db/lru.go at concrete inputs.
use go_mock_redis.Base.{ℕ, ◌+◌, ◌≡◌, refl, arith, [], ◌∷◌, Bytes, codes, fault, Fault}
use go_mock_redis.Db.Memory.{max_memory}
use go_mock_redis.Db.Keyspace.{RedisDb}
use go_mock_redis.Db.Eviction.{PoolEntry, Lru, new_lru, free_entry, insert_key, perform_evictions}
use go_mock_redis.Db.Eviction.Pool.{IsOrdered, insert_key-IsOrdered}
use go_mock_redis.Db.Eviction.Endless.{new_lru-endless}
use go_mock_redis.Tests.Keyspace.{foo, db₀}

abbrev entry : Bytes → ℕ → PoolEntry
entry key idle = record { key = key; idle = idle }

insert_key-IsOrdered_example :
    IsOrdered
      (insert_key (entry (codes "a") 3 ∷ entry (codes "b") 7 ∷ free_entry ∷ free_entry ∷ []) foo 5)
insert_key-IsOrdered_example =
    insert_key-IsOrdered (entry (codes "a") 3) (entry (codes "b") 7) free_entry free_entry foo 5
      refl (refl, (refl, (refl, tt)))

abbrev crowded : RedisDb
crowded = record db₀ { used_memory = max_memory + 1 }

new_lru-endless_example : perform_evictions 100 (new_lru crowded 100 0) ≡ fault Fault.no_fuel
new_lru-endless_example = new_lru-endless crowded 100 0 100 (omega arith) (omega arith)

abbrev at_ease : Lru
at_ease = record { ep = []; db = record db₀ { used_memory = 27 }; hz = 100; lru_clock = 0 }
