-- ===== src/Base/Decimal.antt =====
-- What the code uses of strconv: printing a number and reading it back.
use Prim.Native.Nat.{ℕ, zero, suc, ◌+◌, ◌-◌, ◌*◌, ◌/◌, ◌%◌, ◌<◌}
use mathlib.Core.Path.{◌≡◌, refl, ◌∙◌}
use mathlib.Core.Bool.{Bool, true, ◌&&◌}
use mathlib.Core.List.{[], ◌∷◌}
use mathlib.Core.Logic.{inl, inr}
use native.Mathlib.Omega.{arith}
use go_mock_redis.Base.Tests.{Bytes, ltb, leb, if◌then◌else◌, Bool-cases}

-- `strconv.FormatInt` of a number that is not negative; more than `n` rounds are never needed.
unfoldable pub digits : ℕ → ℕ → Bytes → Bytes
digits zero n out = out
digits (suc fuel) n out =
    let rest = digits fuel (n / 10) ((b'0' + n % 10) ∷ out) in
    if ltb n 10 then (b'0' + n) ∷ out else rest

unfoldable pub format : ℕ → Bytes
unfolding digits
format n = digits (suc n) n []

-- The value of a row of digits.
unfoldable pub value_of : ℕ → Bytes → ℕ
value_of acc [] = acc
value_of acc (c ∷ s) = value_of (acc * 10 + (c - b'0')) s

abbrev pub is_digit : ℕ → Bool
is_digit c = leb b'0' c && leb c b'9'

unfoldable pub all_digits : Bytes → Bool
all_digits [] = true
all_digits (c ∷ s) = is_digit c && all_digits s

value_of-digits :
    (fuel n : ℕ) (out : Bytes) → n < fuel → value_of 0 (digits fuel n out) ≡ value_of n out
unfolding value_of digits
value_of-digits zero n out h = absurd (omega arith)
value_of-digits (suc fuel) n out h = elim (Bool-cases (ltb n 10)) [
  | inl small ↦ rw (small, digits) (ap_value (0 + (b'0' + n - b'0')) n out (omega arith))
  | inr large ↦
      rw (large, digits)
        (value_of-digits fuel (n / 10) ((b'0' + n % 10) ∷ out) (ground arith)
          ∙ ap_value (n / 10 * 10 + (b'0' + n % 10 - b'0')) n out (omega arith))
]
  where
    ap_value : (a b : ℕ) (out : Bytes) → a ≡ b → value_of a out ≡ value_of b out
    ap_value a b out e = rw e

pub value_of-format : (n : ℕ) → value_of 0 (format n) ≡ n
unfolding format value_of
value_of-format n = value_of-digits (suc n) n [] (omega arith)

all_digits-digits :
    (fuel n : ℕ) (out : Bytes) → all_digits out ≡ true → all_digits (digits fuel n out) ≡ true
unfolding digits all_digits
all_digits-digits zero n out h = h
all_digits-digits (suc fuel) n out h =
    ground (arith, all_digits-digits fuel (n / 10) ((b'0' + n % 10) ∷ out))

-- A printed number is a row of digits that reads back as the number.
pub all_digits-format : (n : ℕ) → all_digits (format n) ≡ true
unfolding format all_digits
all_digits-format n = all_digits-digits (suc n) n [] refl
