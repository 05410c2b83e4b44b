-- ===== src/Base/Lines.antt =====
-- Cutting a text at its first CRLF: `bytes.SplitN(s, CRLF, 2)` and `bytes.Index(s, CRLF)`.
use Prim.Native.Nat.{ℕ, suc, ◌+◌}
use mathlib.Core.Path.{◌≡◌, refl, ap, subst}
use mathlib.Core.Bool.{true, false, ◌&&◌}
use mathlib.Core.Option.{Option, none, some}
use mathlib.Core.List.{[], ◌∷◌, ◌++◌}
use mathlib.Core.Logic.{inl, inr}
use native.Mathlib.Omega.{arith}
use go_mock_redis.Base.Tests.{Bytes, ◌==◌, if◌then◌else◌, Bool-cases}
use go_mock_redis.Base.Lists.{length, length-append}
use go_mock_redis.Base.Signed.{ℤ, pos, negsuc}
use go_mock_redis.Base.Strconv.{format_int}
use go_mock_redis.Base.Decimal.{format, all_digits, all_digits-format}

-- The part in front of the first CRLF and the part behind it.
abbrev pub Cut : Type 0
Cut = Option (Bytes × Bytes)

abbrev pub keep : ℕ → Cut → Cut
keep c none = none
keep c (some (line, rest)) = some (c ∷ line, rest)

unfoldable pub cut : Bytes → Cut
cut [] = none
cut (a ∷ []) = none
cut (a ∷ b ∷ s) =
    let later = keep a (cut (b ∷ s)) in if (a == 13) && (b == 10) then some ([], s) else later

keep-none : (c : ℕ) (o : Cut) → keep c o ≡ none → o ≡ none
keep-none c none h = refl
keep-none c (some (line, rest)) h = cc

-- A line that has no CRLF is cut off at the CRLF behind it, whatever follows.
pub cut-append :
    (line rest : Bytes) → cut line ≡ none → cut (line ++ (13 ∷ 10 ∷ rest)) ≡ some (line, rest)
unfolding cut
cut-append [] rest h = refl
cut-append (a ∷ []) rest h = ground arith
cut-append (a ∷ b ∷ s) rest h = elim (Bool-cases ((a == 13) && (b == 10))) [
  | inl e ↦ cc (rw e at h)
  | inr e ↦ rw (e, cut-append (b ∷ s) rest (keep-none a (cut (b ∷ s)) (rw e at h))) refl
]

-- Digits hold no CRLF.
cut-digits : (s : Bytes) → all_digits s ≡ true → cut s ≡ none
unfolding cut all_digits
cut-digits [] h = refl
cut-digits (a ∷ []) h = refl
cut-digits (a ∷ b ∷ s) h = ground (arith, cut-digits (b ∷ s))

pub cut-format : (n : ℕ) → cut (format n) ≡ none
cut-format n = cut-digits (format n) (all_digits-format n)

abbrev IsCut : Bytes → Cut → Type 0
IsCut s none = Unit {0}
IsCut s (some (line, rest)) = (s ≡ line ++ (13 ∷ 10 ∷ rest)) × (cut line ≡ none)

IsCut-keep :
    (a b : ℕ) (s : Bytes) (o : Cut)
    → ((a == 13) && (b == 10)) ≡ false
    → IsCut (b ∷ s) o
    → IsCut (a ∷ b ∷ s) (keep a o)
unfolding cut
IsCut-keep a b s none e h = tt
IsCut-keep a b s (some ([], rest)) e h = (ap (◌∷◌ a) h.0, refl)
IsCut-keep a b s (some (c ∷ line, rest)) e h = (ap (◌∷◌ a) h.0, ground arith)

cut-IsCut : (s : Bytes) → IsCut s (cut s)
unfolding cut
cut-IsCut [] = tt
cut-IsCut (a ∷ []) = tt
cut-IsCut (a ∷ b ∷ s) = elim (Bool-cases ((a == 13) && (b == 10))) [
  | inl e ↦ rw e (ground arith)
  | inr e ↦ rw e (IsCut-keep a b s (cut (b ∷ s)) e (cut-IsCut (b ∷ s)))
]

-- The two parts and the CRLF between them are the text, and the first part has no CRLF.
cut_sound :
    (s line rest : Bytes)
    → cut s ≡ some (line, rest)
    → (s ≡ line ++ (13 ∷ 10 ∷ rest)) × (cut line ≡ none)
cut_sound s line rest h = subst (IsCut s) h (cut-IsCut s)

pub length-cut :
    (s line rest : Bytes) → cut s ≡ some (line, rest) → length line + length rest + 2 ≡ length s
length-cut s line rest h =
    omega (arith, length-append {0} line (13 ∷ 10 ∷ rest), ap length (cut_sound s line rest h).0)

-- A byte that is no CR begins no CRLF.
pub cut-behind : (c : ℕ) (s : Bytes) → (c == 13) ≡ false → cut s ≡ none → cut (c ∷ s) ≡ none
unfolding cut
cut-behind c [] e h = refl
cut-behind c (d ∷ s) e h = ground arith

pub cut-format_int : (z : ℤ) → cut (format_int z) ≡ none
unfolding format_int
cut-format_int (pos n) = cut-format n
cut-format_int (negsuc n) = cut-behind b'-' (format (suc n)) refl (cut-format (suc n))
