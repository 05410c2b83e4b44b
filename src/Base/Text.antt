-- ===== src/Base/Text.antt =====
-- What the code uses of Go's strings: literals as bytes, letter case, and the number of runes.
use Prim.Native.Nat.{ℕ, zero, suc, ◌+◌, ◌-◌, ◌/◌, ◌%◌, ◌≤◌, ◌<◌}
use Prim.Native.Char.{code}
use Prim.Native.String.{String}
use mathlib.Core.Path.{◌≡◌, refl}
use mathlib.Core.Bool.{Bool, true, ◌&&◌}
use mathlib.Core.List.{[], ◌∷◌, map}
use native.Mathlib.Omega.{arith}
use go_mock_redis.Base.Tests.{Bytes, ltb, leb, ◌==◌, if◌then◌else◌, bytes_eq}
use go_mock_redis.Base.Lists.{length}

-- The bytes of an ASCII literal.
abbrev pub codes : String → Bytes
codes String.[] = []
codes (String.◌∷◌ c s) = code c ∷ codes s

-- `resp.CRLF`.
abbrev pub crlf : Bytes
crlf = 13 ∷ 10 ∷ []

unfoldable pub upper : ℕ → ℕ
upper c = if leb b'a' c && leb c b'z' then c - 32 else c

-- `strings.ToUpper`, as far as it matters where the result is compared with a text of the letters
-- A, E, G, N, P, T and X: no character outside ASCII has one of these for its upper case.
unfoldable pub to_upper : Bytes → Bytes
unfolding upper
to_upper = map upper

-- Simple folding towards an ASCII text: besides the lower case letters, the Kelvin sign folds to K
-- and the long s to S.
unfoldable pub fold_case : Bytes → Bytes
unfolding upper
fold_case [] = []
fold_case (a ∷ []) = upper a ∷ []
fold_case (a ∷ b ∷ []) = if (a == 0xC5) && (b == 0xBF) then b'S' ∷ [] else upper a ∷ upper b ∷ []
fold_case (a ∷ b ∷ c ∷ s) =
    let sharp = b'S' ∷ fold_case (c ∷ s) in
    let kelvin = b'K' ∷ fold_case s in
    let plain = upper a ∷ fold_case (b ∷ c ∷ s) in
    if (a == 0xC5) && (b == 0xBF)
    then sharp
    else if (a == 0xE2) && (b == 0x84) && (c == 0xAA)
    then kelvin
    else plain

-- `strings.EqualFold` with an ASCII text for the second argument.
unfoldable pub equal_fold : Bytes → Bytes → Bool
unfolding fold_case bytes_eq
equal_fold s t = bytes_eq (fold_case s) (fold_case t)

abbrev pub within : ℕ → ℕ → ℕ → Bool
within lo hi c = leb lo c && leb c hi

-- A continuation byte of UTF-8.
abbrev pub is_cont : ℕ → Bool
is_cont = within 0x80 0xBF

-- Whether the second byte of a sequence of three or four may follow the first.
unfoldable pub second_ok : ℕ → ℕ → Bool
second_ok a b =
    if a == 0xE0
    then within 0xA0 0xBF b
    else if a == 0xED
    then within 0x80 0x9F b
    else if a == 0xF0
    then within 0x90 0xBF b
    else if a == 0xF4
    then within 0x80 0x8F b
    else is_cont b

-- The bytes of the first rune; a byte that starts no valid sequence is a rune of its own.
unfoldable pub rune_width : Bytes → ℕ
unfolding second_ok
rune_width (a ∷ b ∷ []) = if within 0xC2 0xDF a && is_cont b then 2 else 1
rune_width (a ∷ b ∷ c ∷ []) =
    if within 0xC2 0xDF a && is_cont b
    then 2
    else if within 0xE0 0xEF a && second_ok a b && is_cont c
    then 3
    else 1
rune_width (a ∷ b ∷ c ∷ d ∷ _) =
    if within 0xC2 0xDF a && is_cont b
    then 2
    else if within 0xE0 0xEF a && second_ok a b && is_cont c
    then 3
    else if within 0xF0 0xF4 a && second_ok a b && is_cont c && is_cont d
    then 4
    else 1
rune_width _ = 1

-- The runes of a text of which the first bytes, so many, belong to a rune that is counted.
unfoldable pub count_runes : ℕ → Bytes → ℕ
unfolding rune_width
count_runes skip [] = 0
count_runes zero (a ∷ s) = 1 + count_runes (rune_width (a ∷ s) - 1) s
count_runes (suc skip) (a ∷ s) = count_runes skip s

-- `len([]rune(s))`.
unfoldable pub rune_count : Bytes → ℕ
unfolding count_runes
rune_count s = count_runes 0 s

abbrev pub IsAscii : Bytes → Type 0
IsAscii [] = Unit
IsAscii (a ∷ s) = (a < 0x80) × IsAscii s

ascii-rune_width : (a : ℕ) (s : Bytes) → a < 0x80 → rune_width (a ∷ s) ≡ 1
unfolding rune_width
ascii-rune_width a [] h = refl
ascii-rune_width a (b ∷ []) h = ground arith
ascii-rune_width a (b ∷ c ∷ []) h = ground arith
ascii-rune_width a (b ∷ c ∷ d ∷ s) h = ground arith

-- In an ASCII text the runes are the bytes.
pub rune_count-ascii : (s : Bytes) → IsAscii s → rune_count s ≡ length s
unfolding rune_count count_runes
rune_count-ascii [] h = refl
rune_count-ascii (a ∷ s) h = rw (ascii-rune_width a s h.0) (omega (arith, rune_count-ascii s h.1))

count_runes-le : (skip : ℕ) (s : Bytes) → count_runes skip s ≤ length s
unfolding count_runes
count_runes-le skip [] = omega arith
count_runes-le zero (a ∷ s) = omega (arith, count_runes-le (rune_width (a ∷ s) - 1) s)
count_runes-le (suc skip) (a ∷ s) = omega (arith, count_runes-le skip s)

-- A character of two bytes makes the runes fewer than the bytes.
rune_count-two :
    (a b : ℕ) (s : Bytes)
    → within 0xC2 0xDF a ≡ true
    → is_cont b ≡ true
    → rune_count (a ∷ b ∷ s) < length (a ∷ b ∷ s)
unfolding rune_count count_runes rune_width
rune_count-two a b [] p q = ground arith
rune_count-two a b (c ∷ []) p q = ground (arith, count_runes-le 0 (c ∷ []))
rune_count-two a b (c ∷ d ∷ s) p q = ground (arith, count_runes-le 0 (c ∷ d ∷ s))

-- `string(c)` of a byte, and `%c`: the character with this number, in UTF-8.
unfoldable pub rune_text : ℕ → Bytes
rune_text c = if ltb c 0x80 then c ∷ [] else (0xC0 + c / 64) ∷ (0x80 + c % 64) ∷ []
