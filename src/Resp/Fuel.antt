-- ===== src/Resp/Fuel.antt =====
-- `parseRESP` ends: each nested call starts behind a line of the header, so the data bound the
-- nesting, and what a call leaves is no longer than what it was given.
use go_mock_redis.Base.{
  ℕ, zero, suc, ◌+◌, ◌-◌, ◌≤◌, ◌<◌, ◌≢◌, Bool, ◌&&◌, inl, inr, [], ◌∷◌, arith, leb, Bool-cases,
  Option-cases, Bytes, length, drop, Run, ok, fault, no_fuel, ◌>>=◌,
}
use go_mock_redis.Base.Lines.{cut, length-cut}
use go_mock_redis.Base.Strconv.{atoi}
use go_mock_redis.Base.Signed.{ℤ, pos, negsuc}
use go_mock_redis.Resp.{
  Node, Nodes, Pairs, Kind, Reader, array, collection, push, empty, skip, header, read_line,
  take_blob, read_blob, take_verbatim, read_verbatim, read_boolean, read_null, read_nodes, counted,
  read_aggregate, map_rounds, is_hashable, assign, read_pairs, read_map, read_attribute, kind_of,
  read_kind, parse, parse_resp, simple, error, integer, blob_error, double, big_num, type_array,
  type_blob, type_integer, type_simple, type_error, type_blob_error, type_boolean, type_verbatim,
  type_null, type_double, type_bignum, type_set, type_map, type_push, type_attribute, type_unknown,
}

-- A run that was not cut off, and that leaves so many bytes at most.
abbrev pub Leaves {ℓ} : {A : Type ℓ} → ℕ → Run (A × Bytes) → Type 0
Leaves n (ok (a, rest)) = length rest ≤ n
Leaves n (fault panic) = panic ≢ no_fuel

module _ {ℓ κ} {A : Type ℓ} {B : Type κ} where
  Leaves-bind :
      (n m : ℕ) (r : Run (A × Bytes)) (k : A × Bytes → Run (B × Bytes))
      → Leaves n r
      → ((a : A) (rest : Bytes) → length rest ≤ n → Leaves m (k (a, rest)))
      → Leaves m (r >>= k)
  Leaves-bind n m (ok (a, rest)) k h step = step a rest h
  Leaves-bind n m (fault panic) k h step = h

Leaves-weaken {ℓ} : {A : Type ℓ} (n m : ℕ) (r : Run (A × Bytes)) → n ≤ m → Leaves n r → Leaves m r
Leaves-weaken n m (ok (a, rest)) le h = omega arith
Leaves-weaken n m (fault panic) le h = h

length-drop : (n : ℕ) (s : Bytes) → length (drop n s) ≤ length s
length-drop zero s = omega arith
length-drop (suc n) [] = omega arith
length-drop (suc n) (c ∷ s) = omega (arith, length-drop n s)

header-Leaves : (s : Bytes) → Leaves (length s - 2) (header s)
unfolding header
header-Leaves s = elim (Option-cases (cut s)) [
  | inl e ↦ rw (e, header) λ h. cc
  | inr ((line, rest), e) ↦ rw (e, header) (omega (arith, length-cut s line rest e))
]

-- A reader behind a header, which took two bytes at least.
behind_header {κ} :
    {B : Type κ} (s : Bytes) (k : Bytes × Bytes → Run (B × Bytes))
    → ((line rest : Bytes) → length rest ≤ length s - 2 → Leaves (length s) (k (line, rest)))
    → Leaves (length s) (header s >>= k)
behind_header s k step = Leaves-bind (length s - 2) (length s) (header s) k (header-Leaves s) step

read_line-Leaves : (make : Bytes → Node) (s : Bytes) → Leaves (length s) (read_line make s)
unfolding read_line
read_line-Leaves make s = behind_header s _ λ line rest h. omega arith

take_blob-Leaves : (z : ℤ) (s : Bytes) → Leaves (length s) (take_blob z s)
unfolding take_blob
take_blob-Leaves (negsuc n) s = λ h. cc
take_blob-Leaves (pos n) s = elim (Bool-cases (leb (n + 2) (length s))) [
  | inl t ↦ rw t (length-drop (n + 2) s)
  | inr f ↦ rw f λ h. cc
]

take_verbatim-Leaves : (z : ℤ) (s : Bytes) → Leaves (length s) (take_verbatim z s)
unfolding take_verbatim
take_verbatim-Leaves (negsuc n) s = λ h. cc
take_verbatim-Leaves (pos n) s = elim (Bool-cases (leb 4 n && leb n (length s))) [
  | inl t ↦ rw t (length-drop n s)
  | inr f ↦ rw f λ h. cc
]

read_blob-Leaves : (s : Bytes) → Leaves (length s) (read_blob s)
unfolding read_blob
read_blob-Leaves s = behind_header s _ λ line rest h.
    Leaves-weaken (length rest) (length s) _ (omega arith) (take_blob-Leaves (atoi line) rest)

read_verbatim-Leaves : (s : Bytes) → Leaves (length s) (read_verbatim s)
unfolding read_verbatim
read_verbatim-Leaves s = behind_header s _ λ line rest h.
    Leaves-weaken (length rest) (length s) _ (omega arith) (take_verbatim-Leaves (atoi line) rest)

read_boolean-Leaves : (s : Bytes) → Leaves (length s) (read_boolean s)
unfolding read_boolean skip
read_boolean-Leaves [] = λ h. cc
read_boolean-Leaves (t ∷ []) = λ h. cc
read_boolean-Leaves (t ∷ c ∷ []) = λ h. cc
read_boolean-Leaves (t ∷ c ∷ d ∷ s) = ground arith

read_null-Leaves : (s : Bytes) → Leaves (length s) (read_null s)
unfolding read_null skip
read_null-Leaves [] = λ h. cc
read_null-Leaves (t ∷ []) = λ h. cc
read_null-Leaves (t ∷ c ∷ s) = ground arith

-- The recursive call, on data shorter than `n`.
abbrev pub Calls : ℕ → Reader Node → Type 0
Calls n call = (s : Bytes) → length s < n → Leaves (length s) (call s)

module _ (n : ℕ) (call : Reader Node) (calls : Calls n call) where
  read_nodes-Leaves :
      (count : ℕ) (s : Bytes) → length s < n → Leaves (length s) (read_nodes call count s)
  unfolding read_nodes
  read_nodes-Leaves zero s h = omega arith
  read_nodes-Leaves (suc count) s h =
      Leaves-bind (length s) (length s) (call s) _ (calls s h) λ x later le.
        Leaves-bind (length later) (length s) (read_nodes call count later) _
          (read_nodes-Leaves count later (omega arith)) λ xs rest le'. omega arith

  counted-Leaves : (z : ℤ) (s : Bytes) → length s < n → Leaves (length s) (counted call z s)
  unfolding counted
  counted-Leaves (negsuc k) s h = λ e. cc
  counted-Leaves (pos k) s h = read_nodes-Leaves k s h

  read_pairs-Leaves :
      (same_float : Bytes → Bytes → Bool) (count : ℕ) (ps : Pairs) (s : Bytes)
      → length s < n
      → Leaves (length s) (read_pairs same_float call count ps s)
  unfolding read_pairs assign
  read_pairs-Leaves same_float zero ps s h = omega arith
  read_pairs-Leaves same_float (suc count) ps s h =
      Leaves-bind (length s) (length s) (call s) _ (calls s h) λ k middle le.
        Leaves-bind (length middle) (length s) (call middle) _ (calls middle (omega arith))
          λ v later le'. elim (Bool-cases (is_hashable k)) [
            | inl t ↦ rw t (
                Leaves-weaken (length later) (length s) _ (omega arith)
                  (read_pairs-Leaves same_float count _ later (omega arith)))
            | inr f ↦ rw f λ e. cc
          ]

  module _ (s : Bytes) (short : length s ≤ n) (filled : 0 < length s) where
    read_aggregate-Leaves : (make : Nodes → Node) → Leaves (length s) (read_aggregate make call s)
    unfolding read_aggregate
    read_aggregate-Leaves make = behind_header s _ λ line rest h.
        Leaves-bind (length rest) (length s) (counted call (atoi line) rest) _
          (counted-Leaves (atoi line) rest (omega arith)) λ xs left le. omega arith

    read_map-Leaves :
        (same_float : Bytes → Bytes → Bool) → Leaves (length s) (read_map same_float call s)
    unfolding read_map
    read_map-Leaves same_float = behind_header s _ λ line rest h.
        Leaves-bind (length rest) (length s)
          (read_pairs same_float call (map_rounds (atoi line)) empty rest) _
          (read_pairs-Leaves same_float (map_rounds (atoi line)) empty rest (omega arith))
          λ ps left le. omega arith

    read_attribute-Leaves :
        (same_float : Bytes → Bytes → Bool) → Leaves (length s) (read_attribute same_float call s)
    unfolding read_attribute
    read_attribute-Leaves same_float = behind_header s _ λ line rest h.
        Leaves-bind (length rest) (length s)
          (read_pairs same_float call (map_rounds (atoi line)) empty rest) _
          (read_pairs-Leaves same_float (map_rounds (atoi line)) empty rest (omega arith))
          λ ps left le.
            Leaves-weaken (length left) (length s) _ (omega arith) (calls left (omega arith))

    read_kind-Leaves :
        (same_float : Bytes → Bytes → Bool) (kind : Kind)
        → Leaves (length s) (read_kind same_float call kind s)
    unfolding read_kind
    read_kind-Leaves same_float type_array = read_aggregate-Leaves array
    read_kind-Leaves same_float type_blob = read_blob-Leaves s
    read_kind-Leaves same_float type_integer = read_line-Leaves (λ line. integer (atoi line)) s
    read_kind-Leaves same_float type_simple = read_line-Leaves simple s
    read_kind-Leaves same_float type_error = read_line-Leaves error s
    read_kind-Leaves same_float type_blob_error = read_line-Leaves blob_error s
    read_kind-Leaves same_float type_boolean = read_boolean-Leaves s
    read_kind-Leaves same_float type_verbatim = read_verbatim-Leaves s
    read_kind-Leaves same_float type_null = read_null-Leaves s
    read_kind-Leaves same_float type_double = read_line-Leaves double s
    read_kind-Leaves same_float type_bignum = read_line-Leaves big_num s
    read_kind-Leaves same_float type_set = read_aggregate-Leaves collection
    read_kind-Leaves same_float type_map = read_map-Leaves same_float
    read_kind-Leaves same_float type_push = read_aggregate-Leaves push
    read_kind-Leaves same_float type_attribute = read_attribute-Leaves same_float
    read_kind-Leaves same_float type_unknown = omega arith

parse-Leaves :
    (same_float : Bytes → Bytes → Bool) (fuel : ℕ) (s : Bytes)
    → length s < fuel
    → Leaves (length s) (parse same_float fuel s)
unfolding parse
parse-Leaves same_float zero s h = absurd (omega arith)
parse-Leaves same_float (suc fuel) [] h = λ e. cc
parse-Leaves same_float (suc fuel) (t ∷ s) h =
    read_kind-Leaves fuel (parse same_float fuel) (parse-Leaves same_float fuel) (t ∷ s)
      (omega arith) (omega arith) same_float (kind_of t)

-- `parseRESP` ends on all data, with a value and a rest that is no longer than the data, or with a
-- panic: its nesting is no deeper than the data is long.
pub parse_resp-Leaves :
    (same_float : Bytes → Bytes → Bool) (s : Bytes) → Leaves (length s) (parse_resp same_float s)
unfolding parse_resp
parse_resp-Leaves same_float s = parse-Leaves same_float (suc (length s)) s (omega arith)
