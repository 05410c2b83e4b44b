-- ===== src/Db/Dict/Insert.antt =====
-- db/dict.go: pointers to entries, `AddRaw` and the sampling of keys.
-- A pointer to an entry is a slot: the table, the bucket and the position in the chain.
pub mod Slots
pub mod Pointers
pub mod Entry
pub mod Fresh
use Prim.Native.Nat.{min}
use go_mock_redis.Base.{
  ℕ, zero, suc, ◌+◌, ◌-◌, ◌*◌, ◌<◌, ◌≡◌, refl, Bool, true, false, not, ◌&&◌, ◌||◌, List, [], ◌∷◌,
  ◌++◌, arith, ◌==◌, ltb, leb, if◌then◌else◌, Option, none, some, length, get_elem?, set, take, Run,
  ok, fault, Fault, ◌>>=◌,
}
use go_mock_redis.Db.Memory.{Value, increase_used_memory}
use go_mock_redis.Db.Hash.{Key, hash}
use go_mock_redis.Db.Dict.{Chain, HashTable, at, step_if_rehashing, check_load, is_empty, len}

pub record Slot : Type 0 where
  pub rehashing : Bool
  pub index : ℕ
  pub position : ℕ

-- The value of the entry at a position of a chain, and a write to it.
unfoldable pub value_at {ℓ} : {K V : Type ℓ} → Chain K V → ℕ → Option V
value_at [] p = none
value_at (e ∷ c) zero = some e.1
value_at (e ∷ c) (suc p) = value_at c p

unfoldable pub write_at {ℓ} : {K V : Type ℓ} → Chain K V → ℕ → V → Chain K V
write_at [] p v = []
write_at (e ∷ c) zero v = (e.0, v) ∷ c
write_at (e ∷ c) (suc p) v = e ∷ write_at c p v

-- The chain that a slot points into.
unfoldable pub chain_of {ℓ} : {K V : Type ℓ} → HashTable K V → Slot → Run (Chain K V)
unfolding at
chain_of h s = if s.rehashing then at h.rehashing_tbl s.index else at h.table s.index

-- `GetVal`, where `none` is the zero value that a nil pointer yields.
unfoldable pub get_val {ℓ} : {K V : Type ℓ} → HashTable K V → Option Slot → Run (Option V)
unfolding chain_of value_at
get_val h none = ok none
get_val h (some s) = do c ← chain_of h s; ok (value_at c s.position)

-- `SetVal`: the value is counted as used memory, and what it replaces is not given back.
unfoldable pub set_val {ℓ} :
    {K V : Type ℓ} → (V → Value) → ℕ → HashTable K V → Option Slot → V → Run (ℕ × HashTable K V)
unfolding chain_of write_at
set_val value_of used h none v = ok (used, h)
set_val value_of used h (some s) v = do
  c ← chain_of h s
  let c' = write_at c s.position v
  ok (
    increase_used_memory used (value_of v),
    if s.rehashing
        then record h { rehashing_tbl = set h.rehashing_tbl s.index c' }
        else record h { table = set h.table s.index c' },
  )

module _ {ℓ} {K V : Type ℓ} ⦃key : Key K⦄ where
  -- The position of the first entry with the key.
  unfoldable pub position_of : K → Chain K V → Option ℕ
  position_of k [] = none
  position_of k (e ∷ c) =
      let rest = position_of k c in
      if key.equal e.0 k then some 0 else elim rest [ none ↦ none | some p ↦ some (suc p) ]

  unfoldable pub find_slot : Bool → K → List (Chain K V) → ℕ → Run (Option Slot)
  unfolding hash at position_of
  find_slot rehashing k table size = do
    index ← hash k size
    c ← at table index
    ok (elim (position_of k c) [
      | none ↦ none
      | some p ↦ some (record { rehashing = rehashing; index = index; position = p })
    ])

  unfoldable pub get_entry : HashTable K V → K → Run (Option Slot)
  unfolding find_slot
  get_entry h k = elim h.rehashing_idx [
    | none ↦ find_slot false k h.table h.size
    | some _ ↦ do
      found ← find_slot true k h.rehashing_tbl h.rehashing_size
      elim found [ none ↦ find_slot false k h.table h.size | some s ↦ ok (some s) ]
  ]

  module _ (zero_value : V) where
    -- The end of `findPositionForInsert` on the main table. The loop goes on to the entry that it
    -- has just linked, whose key is the wanted one: the flag says that the key was there already.
    unfoldable pub insert_main : ℕ → HashTable K V → K → Run (ℕ × HashTable K V × Slot × Bool)
    unfolding hash at position_of
    insert_main used h k = do
      index ← hash k h.size
      c ← at h.table index
      elim (position_of k c) [
        | some p ↦ ok (used, h, record { rehashing = false; index = index; position = p }, true)
        | none ↦ ok (
          increase_used_memory used (key.value k),
          record h { table = set h.table index (c ++ (k, zero_value) ∷ []); count = h.count + 1 },
          record { rehashing = false; index = index; position = length c },
          not (length c == 0),
        )
      ]

    -- While the rehashing goes on. In an empty bucket of the new table the entry is linked and the
    -- code falls through to the main table: it finds the key there, or links the same entry twice.
    unfoldable pub insert_new : ℕ → HashTable K V → K → Run (ℕ × HashTable K V × Slot × Bool)
    unfolding hash at position_of
    insert_new used h k = do
      index ← hash k h.rehashing_size
      c ← at h.rehashing_tbl index
      let used' = increase_used_memory used (key.value k)
      let h' = record h {
        rehashing_tbl = set h.rehashing_tbl index (c ++ (k, zero_value) ∷ []);
        count = h.count + 1;
      }
      elim (position_of k c) [
        | some p ↦ ok (used, h, record { rehashing = true; index = index; position = p }, true)
        | none ↦
            if length c == 0
            then (do
              main ← find_slot false k h.table h.size
              elim main [ none ↦ fault Fault.shared_entry | some s ↦ ok (used', h', s, true) ])
            else ok
                (used', h', record { rehashing = true; index = index; position = length c }, true)
      ]

    unfoldable pub insert_raw : ℕ → HashTable K V → K → Run (ℕ × HashTable K V × Slot × Bool)
    unfolding insert_main insert_new
    insert_raw used h k = elim h.rehashing_idx [
      | none ↦ insert_main used h k
      | some _ ↦ insert_new used h k
    ]

    -- `AddRaw`, that is `findPositionForInsert`.
    unfoldable pub add_raw : ℕ → HashTable K V → K → Run (ℕ × HashTable K V × Slot × Bool)
    unfolding step_if_rehashing insert_raw check_load
    add_raw used h k = do
      h' ← step_if_rehashing h
      (used', h'', s, existing) ← insert_raw used h' k
      ok (used', check_load h'', s, existing)

-- `GetSomeKeys`. The draws are the results of `rand.Intn`; `none` says that the code asks for more.
unfoldable pub take_keys {ℓ} : {K V : Type ℓ} → ℕ → Chain K V → List K → List K
take_keys n [] keys = keys
take_keys n (e ∷ c) keys =
    let rest = take_keys n c (keys ++ e.0 ∷ []) in if ltb (length keys) n then rest else keys

abbrev pub visited : ℕ → List ℕ → Bool
visited i [] = false
visited i (j ∷ js) = (i == j) || visited i js

unfoldable pub sample_keys {ℓ} :
    {K V : Type ℓ} → List ℕ → ℕ → HashTable K V → List ℕ → List K → Run (List K)
unfolding at take_keys
sample_keys [] n h seen keys =
    if ltb (length keys) n && ltb (length seen) h.size then fault Fault.no_fuel else ok keys
sample_keys (i ∷ draws) n h seen keys = elim (ltb (length keys) n && ltb (length seen) h.size) [
  | false ↦ ok keys
  | true ↦ elim (visited i seen) [
    | true ↦ sample_keys draws n h seen keys
    | false ↦ do c ← at h.table i; sample_keys draws n h (i ∷ seen) (take_keys n c keys)
  ]
]

unfoldable pub get_some_keys {ℓ} : {K V : Type ℓ} → List ℕ → HashTable K V → ℕ → Run (List K)
unfolding sample_keys is_empty len
get_some_keys draws h count =
    if is_empty h then ok [] else sample_keys draws (min count (len h)) h [] []
