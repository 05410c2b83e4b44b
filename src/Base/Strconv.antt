-- ===== src/Base/Strconv.antt =====
-- What the code uses of strconv to read numbers: `ParseInt` in base 10 and `Atoi`.
use Prim.Native.Nat.{ℕ, zero, suc, ◌+◌, ◌-◌, ◌*◌, ◌/◌, ◌%◌, ◌^◌, ◌≤◌, ◌<◌}
use mathlib.Core.Path.{◌≡◌, refl}
use mathlib.Core.Bool.{true}
use mathlib.Core.List.{[], ◌∷◌}
use native.Mathlib.Omega.{arith}
use go_mock_redis.Base.Tests.{Bytes, ltb, leb, ◌==◌, if◌then◌else◌}
use go_mock_redis.Base.Lists.{length}
use go_mock_redis.Base.Signed.{ℤ, pos, negsuc, neg}
use go_mock_redis.Base.Decimal.{
  digits, format, value_of, is_digit, all_digits, value_of-format, all_digits-format,
}

-- A number, `ErrSyntax`, or `ErrRange` with the nearest number in range.
pub data Parsed (Number : Type 0) : Type 0 where
  number : Number → Parsed Number
  bad_syntax : Parsed Number
  bad_range : Number → Parsed Number

-- The loop of `ParseUint`: the first byte that is no digit, or the first digit that takes the
-- number past 64 bits, ends it.
unfoldable pub scan : ℕ → Bytes → Parsed ℕ
scan acc [] = number acc
scan acc (c ∷ s) =
    let next = acc * 10 + (c - b'0') in
    let rest = scan next s in
    if is_digit c then if leb (2 ^ 64) next then bad_range (2 ^ 64 - 1) else rest else bad_syntax

unfoldable pub parse_uint : Bytes → Parsed ℕ
unfolding scan
parse_uint [] = bad_syntax
parse_uint (c ∷ s) = scan 0 (c ∷ s)

-- The bounds of an `int64` behind a sign.
unfoldable pub positive : Parsed ℕ → Parsed ℤ
positive (number n) = if ltb n (2 ^ 63) then number (pos n) else bad_range (pos (2 ^ 63 - 1))
positive bad_syntax = bad_syntax
positive (bad_range n) = bad_range (pos (2 ^ 63 - 1))

unfoldable pub negative : Parsed ℕ → Parsed ℤ
negative (number n) = if leb n (2 ^ 63) then number (neg n) else bad_range (negsuc (2 ^ 63 - 1))
negative bad_syntax = bad_syntax
negative (bad_range n) = bad_range (negsuc (2 ^ 63 - 1))

-- `strconv.ParseInt(s, 10, 64)`
unfoldable pub parse_int : Bytes → Parsed ℤ
unfolding parse_uint positive negative
parse_int [] = bad_syntax
parse_int (c ∷ s) =
    if c == b'+'
    then positive (parse_uint s)
    else if c == b'-'
    then negative (parse_uint s)
    else positive (parse_uint (c ∷ s))

-- `strconv.Atoi` with its error dropped.
unfoldable pub value_or_zero : Parsed ℤ → ℤ
value_or_zero (number n) = n
value_or_zero bad_syntax = pos 0
value_or_zero (bad_range n) = n

unfoldable pub atoi : Bytes → ℤ
unfolding parse_int value_or_zero
atoi s = value_or_zero (parse_int s)

value_of-le : (acc : ℕ) (s : Bytes) → acc ≤ value_of acc s
unfolding value_of
value_of-le acc [] = omega arith
value_of-le acc (c ∷ s) = omega (arith, value_of-le (acc * 10 + (c - b'0')) s)

scan-digits :
    (acc : ℕ) (s : Bytes)
    → all_digits s ≡ true
    → value_of acc s < 2 ^ 64
    → scan acc s ≡ number (value_of acc s)
unfolding scan value_of all_digits
scan-digits acc [] d h = refl
scan-digits acc (c ∷ s) d h =
    ground (arith, value_of-le (acc * 10 + (c - b'0')) s, scan-digits (acc * 10 + (c - b'0')) s)

length-digits : (fuel n : ℕ) (out : Bytes) → length out ≤ length (digits fuel n out)
unfolding digits
length-digits zero n out = omega arith
length-digits (suc fuel) n out = ground (arith, length-digits fuel (n / 10) ((b'0' + n % 10) ∷ out))

format_pos : (n : ℕ) → 0 < length (format n)
unfolding format digits
format_pos n = ground (arith, length-digits n (n / 10) ((b'0' + n % 10) ∷ []))

parse_int-digits :
    (s : Bytes)
    → 0 < length s
    → all_digits s ≡ true
    → value_of 0 s < 2 ^ 63
    → parse_int s ≡ number (pos (value_of 0 s))
unfolding parse_int parse_uint positive all_digits
parse_int-digits [] p d h = elim p [ ]
parse_int-digits (c ∷ s) p d h = ground (arith, scan-digits 0 (c ∷ s) d)

-- A number that was printed is read back, if it fits in an `int64`.
parse_int-format : (n : ℕ) → n < 2 ^ 63 → parse_int (format n) ≡ number (pos n)
parse_int-format n h =
    rw value_of-format at
      (parse_int-digits (format n) (format_pos n) (all_digits-format n) (rw value_of-format h))

pub atoi-format : (n : ℕ) → n < 2 ^ 63 → atoi (format n) ≡ pos n
unfolding atoi
atoi-format n h = rw (parse_int-format n h, value_or_zero)

-- `strconv.Itoa`, and `%d` of an `int`.
unfoldable pub format_int : ℤ → Bytes
format_int (pos n) = format n
format_int (negsuc n) = b'-' ∷ format (suc n)

-- The range of an `int64`.
abbrev pub IsInt64 : ℤ → Type 0
IsInt64 (pos n) = n < 2 ^ 63
IsInt64 (negsuc n) = n < 2 ^ 63

parse_uint-digits :
    (s : Bytes)
    → 0 < length s
    → all_digits s ≡ true
    → value_of 0 s < 2 ^ 64
    → parse_uint s ≡ number (value_of 0 s)
unfolding parse_uint
parse_uint-digits [] p d h = elim p [ ]
parse_uint-digits (c ∷ s) p d h = scan-digits 0 (c ∷ s) d h

parse_uint-format : (n : ℕ) → n < 2 ^ 64 → parse_uint (format n) ≡ number n
parse_uint-format n h =
    rw value_of-format at
      (parse_uint-digits (format n) (format_pos n) (all_digits-format n) (rw value_of-format h))

-- Every `int64` that was printed is read back.
parse_int-format_int : (z : ℤ) → IsInt64 z → parse_int (format_int z) ≡ number z
unfolding format_int parse_int negative
parse_int-format_int (pos n) h = parse_int-format n h
parse_int-format_int (negsuc n) h = rw (parse_uint-format (suc n) (omega arith)) (ground arith)

pub atoi-format_int : (z : ℤ) → IsInt64 z → atoi (format_int z) ≡ z
unfolding atoi
atoi-format_int z h = rw (parse_int-format_int z h, value_or_zero)
