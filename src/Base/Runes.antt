-- ===== src/Base/Runes.antt =====
-- Go's strings as sequences of runes, and their comparison without regard to case.
use Prim.Native.Nat.{ℕ, zero, suc, ◌+◌, ◌-◌, ◌*◌}
use mathlib.Core.Bool.{Bool}
use mathlib.Core.List.{List, [], ◌∷◌, map}
use go_mock_redis.Base.Tests.{Bytes, ltb, ◌==◌, if◌then◌else◌, bytes_eq}
use go_mock_redis.Base.Lists.{get_or}
use go_mock_redis.Base.Text.{rune_width}

-- The first rune of a text; a byte that starts no valid sequence is the replacement character.
unfoldable pub first_rune : Bytes → ℕ
unfolding rune_width
first_rune s =
    let a = get_or s 0 0 in
    let b = get_or s 1 0 - 0x80 in
    let c = get_or s 2 0 - 0x80 in
    let d = get_or s 3 0 - 0x80 in
    if ltb a 0x80
    then a
    else if rune_width s == 2
    then (a - 0xC0) * 64 + b
    else if rune_width s == 3
    then ((a - 0xE0) * 64 + b) * 64 + c
    else if rune_width s == 4
    then (((a - 0xF0) * 64 + b) * 64 + c) * 64 + d
    else 0xFFFD

-- The runes of a text of which the first bytes, so many, belong to a rune that is taken.
unfoldable pub runes_from : ℕ → Bytes → List ℕ
unfolding first_rune rune_width
runes_from skip [] = []
runes_from zero (a ∷ s) = first_rune (a ∷ s) ∷ runes_from (rune_width (a ∷ s) - 1) s
runes_from (suc skip) (a ∷ s) = runes_from skip s

-- `strings.EqualFold` of any two texts. Go's tables say which runes are the same but for their case:
-- `fold` takes a rune to the least one that `unicode.SimpleFold` leads to from it.
unfoldable pub equal_fold_runes : (fold : ℕ → ℕ) → Bytes → Bytes → Bool
unfolding runes_from bytes_eq
equal_fold_runes fold s t = bytes_eq (map fold (runes_from 0 s)) (map fold (runes_from 0 t))
