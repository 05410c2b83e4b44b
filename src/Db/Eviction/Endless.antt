-- ===== src/Db/Eviction/Endless.antt =====
-- db/lru.go, `PerformEvictions`: when it ends.
use go_mock_redis.Base.{
  ℕ, zero, suc, ◌-◌, ◌^◌, ◌<◌, ◌≤◌, ◌≡◌, refl, true, false, arith, ◌==◌, none, ok, fault, Fault,
  ◌>>=◌, Bool-cases, inl, inr,
}
use go_mock_redis.Db.Memory.{max_memory}
use go_mock_redis.Db.Dict.{len}
use go_mock_redis.Db.Keyspace.{RedisDb}
use go_mock_redis.Db.Eviction.{
  Lru, new_lru, best_key, search_key, evict, perform_evictions, get_maxmemory_state, evict_ok,
  signed_less,
}

module _ (lru : Lru) where
  search_key-empty :
      (rounds : ℕ) → (len lru.db.dict == 0) ≡ true → search_key (suc rounds) lru ≡ ok none
  unfolding search_key
  search_key-empty rounds empty = rw empty refl

  module _ (stuck : best_key lru.db lru.ep ≡ ok none) where
    search_key-endless :
        (rounds : ℕ) → (len lru.db.dict == 0) ≡ false → search_key rounds lru ≡ fault Fault.no_fuel
    unfolding search_key
    search_key-endless zero filled = refl
    search_key-endless (suc rounds) filled =
        rw (filled, search_key, stuck, ◌>>=◌) (search_key-endless rounds filled)

    evict-endless :
        (rounds to_free freed : ℕ)
        → signed_less freed to_free ≡ true
        → evict rounds to_free freed lru ≡ fault Fault.no_fuel
    unfolding evict
    evict-endless zero to_free freed more = refl
    evict-endless (suc zero) to_free freed more = rw (more, evict) refl
    evict-endless (suc (suc rounds)) to_free freed more = elim (Bool-cases (len lru.db.dict == 0)) [
      | inl empty ↦
          rw (more, evict, search_key-empty rounds empty, ◌>>=◌)
            (evict-endless (suc rounds) to_free freed more)
      | inr filled ↦ rw (more, evict, search_key-endless (suc rounds) filled, ◌>>=◌) refl
    ]

    -- Over the limit, with no key in the pool that has an expire time, `PerformEvictions` never ends:
    -- it runs out of rounds however many it gets.
    perform_evictions-endless :
        (rounds : ℕ)
        → max_memory < lru.db.used_memory
        → lru.db.used_memory < 2 ^ 63
        → perform_evictions rounds lru ≡ fault Fault.no_fuel
    unfolding perform_evictions get_maxmemory_state
    perform_evictions-endless rounds over word =
        let above : signed_less max_memory lru.db.used_memory ≡ true = ground arith in
        let more : signed_less 0 (lru.db.used_memory - max_memory) ≡ true = ground arith in
        rw
          (
            above,
            perform_evictions,
            evict-endless rounds (lru.db.used_memory - max_memory) 0 more,
            ◌>>=◌,
          )
          refl

  -- With at most the limit of memory in use `PerformEvictions` ends at once with EvictOk and
  -- changes nothing.
  perform_evictions-within :
      (rounds : ℕ)
      → lru.db.used_memory ≤ max_memory
      → perform_evictions rounds lru ≡ ok (lru, evict_ok)
  unfolding perform_evictions get_maxmemory_state
  perform_evictions-within rounds within =
      let below : signed_less max_memory lru.db.used_memory ≡ false = ground arith in
      rw (below, perform_evictions) refl

-- With more than the limit of memory in use, as an int64, `PerformEvictions` on a pool that has
-- just been made never ends: it runs out of rounds however many it gets.
pub new_lru-endless :
    (db : RedisDb) (hz clock rounds : ℕ)
    → max_memory < db.used_memory
    → db.used_memory < 2 ^ 63
    → perform_evictions rounds (new_lru db hz clock) ≡ fault Fault.no_fuel
unfolding new_lru best_key
new_lru-endless db hz clock rounds over word =
    perform_evictions-endless (new_lru db hz clock) refl rounds over word
