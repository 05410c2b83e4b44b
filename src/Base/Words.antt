-- ===== src/Base/Words.antt =====
-- Flag words: single bits are tested, set and cleared by arithmetic, so that the tactics read them.
use Prim.Native.Nat.{ℕ, ◌+◌, ◌-◌, ◌/◌, ◌%◌, ◌^◌}
use mathlib.Core.Bool.{Bool}
use go_mock_redis.Base.Tests.{◌==◌, if◌then◌else◌}

-- `w & (1 << k) != 0`
abbrev pub has_bit : ℕ → ℕ → Bool
has_bit w k = (w / 2 ^ k) % 2 == 1

-- `w | (1 << k)`
abbrev pub set_bit : ℕ → ℕ → ℕ
set_bit w k = if has_bit w k then w else w + 2 ^ k

-- `w & ^(1 << k)`
abbrev pub clear_bit : ℕ → ℕ → ℕ
clear_bit w k = if has_bit w k then w - 2 ^ k else w
