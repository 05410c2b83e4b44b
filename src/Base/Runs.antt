-- ===== src/Base/Runs.antt =====
-- Results of code that can fail at run time: Go's panics are faults.
use mathlib.Core.Path.{◌≡◌, sym, subst, ◌∙◌}

-- `out_of_range`, `division_by_zero`, `nil_pointer` and `bad_assertion` are run-time panics of Go and
-- `explicit_panic` is a call of `panic`. `shared_entry` is no panic: the code goes on with one chain
-- entry linked from two tables, a state that chains as lists do not represent. `no_fuel` marks a
-- loop that was not run to its end.
pub data Fault : Type 0 where
  out_of_range division_by_zero nil_pointer bad_assertion explicit_panic shared_entry unhashable_key
        no_fuel :
      Fault

-- What a call gives back: a panic, or its results.
pub data Run {ℓ} (Result : Type ℓ) : Type ℓ where
  fault : Fault → Run Result
  ok : Result → Run Result

-- A statement after a call that may have panicked.
infixl 5 ◌>>=◌
abbrev pub ◌>>=◌ {ℓ κ} :
    {First : Type ℓ} {Second : Type κ} → Run First → (First → Run Second) → Run Second
fault panic >>= rest = fault panic
ok result >>= rest = rest result

-- The call does not panic, and its results have the property.
abbrev pub Returns {ℓ κ} : {Result : Type ℓ} → Run Result → (Result → Type κ) → Type (ℓ ⊔ κ)
Returns {Result} call Property = (result : Result) × (call ≡ ok result) × Property result

ok-injective {ℓ} : {A : Type ℓ} {a b : A} → ok a ≡ ok b → a ≡ b
ok-injective e = cc

-- What holds of the result of a run holds of the value that the run is known to return.
pub Returns-at {ℓ κ} :
    {A : Type ℓ} (r : Run A) (P : A → Type κ) (a : A) → Returns r P → r ≡ ok a → P a
Returns-at r P a (b, run, p) e = subst P (ok-injective (sym run ∙ e)) p
