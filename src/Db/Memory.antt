-- ===== src/Db/Memory.antt =====
-- db/zmalloc.go: the estimate of a value's size and the global counter of used memory.
use go_mock_redis.Base.{ℕ, ◌+◌, ◌-◌, ◌*◌, ◌%◌, ◌^◌, ◌<◌, ◌≡◌, List, arith, Bytes, length}

-- The dynamic types that `estimateMemoryUsage` tells apart; `other` is its default case.
pub data Value : Type 0 where
  int : Value
  float64 : Value
  string : Bytes → Value
  ints : List ℕ → Value
  other : Value

unfoldable pub estimate_memory_usage : Value → ℕ
estimate_memory_usage int = 8
estimate_memory_usage float64 = 8
estimate_memory_usage (string s) = 16 + length s
estimate_memory_usage (ints xs) = 24 + length xs * 8
estimate_memory_usage other = 0

-- An int64 is kept as its bit pattern.
abbrev pub word64 : ℕ
word64 = 2 ^ 64

abbrev pub max_memory : ℕ
max_memory = 1024 * 1024 * 1024

unfoldable pub update_zmalloc_stat_alloc : ℕ → ℕ → ℕ
update_zmalloc_stat_alloc used n = (used + n) % word64

unfoldable pub update_zmalloc_stat_free : ℕ → ℕ → ℕ
update_zmalloc_stat_free used n = (used + word64 - n % word64) % word64

unfoldable pub increase_used_memory : ℕ → Value → ℕ
unfolding update_zmalloc_stat_alloc estimate_memory_usage
increase_used_memory used v = update_zmalloc_stat_alloc used (estimate_memory_usage v)

unfoldable pub decrease_used_memory : ℕ → Value → ℕ
unfolding update_zmalloc_stat_free estimate_memory_usage
decrease_used_memory used v = update_zmalloc_stat_free used (estimate_memory_usage v)

-- Giving back the memory of a value undoes counting it, for every value and every 64-bit counter,
-- also where the counter wraps around.
decrease-increase :
    (used : ℕ) (v : Value)
    → used < word64
    → decrease_used_memory (increase_used_memory used v) v ≡ used
unfolding increase_used_memory decrease_used_memory
decrease-increase used v h = omega arith
