-- ===== src/Db/Dict.antt =====
-- db/dict.go: the hash table with chaining and incremental rehashing.
-- A chain is the list of its entries' keys and values in the order of their `Next` pointers, and a
-- bucket that holds nil is the empty chain. Used memory is the global counter of Memory.
pub mod Chains
pub mod Buckets
pub mod Rehash
pub mod Steps
pub mod Tables
pub mod Write
pub mod Delete
pub mod Stale
pub mod Overtake
pub mod Insert
use Prim.Native.Nat.{min}
use go_mock_redis.Base.{
  ℕ, zero, suc, ◌+◌, ◌-◌, ◌*◌, ◌%◌, ◌<◌, ◌≡◌, refl, Bool, true, false, ◌&&◌, ◌||◌, List, [], ◌∷◌,
  ◌++◌, arith, ◌==◌, ltb, leb, if◌then◌else◌, Option, none, some, length, get_elem?, set, replicate,
  Run, ok, fault, Fault, ◌>>=◌,
}
use go_mock_redis.Db.Memory.{Value, increase_used_memory, decrease_used_memory}
use go_mock_redis.Db.Hash.{Key, hash}

-- `Entry`: the key and the value.
abbrev pub Entry {ℓ} : Type ℓ → Type ℓ → Type ℓ
Entry K V = K × V

abbrev pub Chain {ℓ} : Type ℓ → Type ℓ → Type ℓ
Chain K V = List (Entry K V)

-- `rehashing_idx` is `none` where the source has -1.
pub record HashTable {ℓ} (K V : Type ℓ) : Type ℓ where
  pub table : List (Chain K V)
  pub size : ℕ
  pub rehashing_idx : Option ℕ
  pub rehashing_size : ℕ
  pub rehashing_tbl : List (Chain K V)
  pub count : ℕ

abbrev pub rehashing_buckets : ℕ
rehashing_buckets = 10

unfoldable pub new_hash_table {ℓ} : {K V : Type ℓ} → ℕ → HashTable K V
new_hash_table init_size = record {
  table = replicate init_size [];
  size = init_size;
  rehashing_idx = none;
  rehashing_size = 0;
  rehashing_tbl = [];
  count = 0;
}

-- Indexing a slice.
unfoldable pub at {ℓ} : {A : Type ℓ} → List A → ℕ → Run A
at xs i = elim (get_elem? xs i) [ none ↦ fault Fault.out_of_range | some x ↦ ok x ]

unfoldable pub start_rehashing {ℓ} : {K V : Type ℓ} → HashTable K V → HashTable K V
start_rehashing h = elim h.rehashing_idx [
  | none ↦ record h {
    rehashing_size = h.size * 2;
    rehashing_tbl = replicate (h.size * 2) [];
    rehashing_idx = some 0;
  }
  | some i ↦ h
]

-- The deferred check `float64(h.Count)/float64(h.Size) > 0.7`. The quotient of two integers below
-- 2 ^ 40 is above the float 0.7 exactly when it is above 7 / 10; with a size of 0 it is +Inf or NaN.
unfoldable pub over_load {ℓ} : {K V : Type ℓ} → HashTable K V → Bool
over_load h = ltb (7 * h.size) (10 * h.count)

unfoldable pub check_load {ℓ} : {K V : Type ℓ} → HashTable K V → HashTable K V
unfolding over_load start_rehashing
check_load h = if over_load h then start_rehashing h else h

module _ {ℓ} {K V : Type ℓ} ⦃key : Key K⦄ where
  -- The loop over a chain that `Get`, `GetEntry` and `getFromTable` share.
  unfoldable pub find : K → Chain K V → Option V
  find k [] = none
  find k (e ∷ c) = if key.equal e.0 k then some e.1 else find k c

  -- The loop of `Set` over a chain: the value is written to the first entry with the key, or a new
  -- entry is linked behind the last one. The flag says that an entry was added.
  unfoldable pub put_chain : K → V → Chain K V → Chain K V × Bool
  put_chain k v [] = ((k, v) ∷ [], true)
  put_chain k v (e ∷ c) =
      let rest = put_chain k v c in
      if key.equal e.0 k then ((e.0, v) ∷ c, false) else (e ∷ rest.0, rest.1)

  -- The inner loop of `rehashStep`: each entry becomes the head of its chain in the new table.
  unfoldable pub move_chain : Chain K V → List (Chain K V) → ℕ → Run (List (Chain K V))
  unfolding hash at
  move_chain [] new size = ok new
  move_chain (e ∷ es) new size = do
    index ← hash e.0 size
    c ← at new index
    move_chain es (set new index (e ∷ c)) size

  -- The outer loop of `rehashStep`, with the rounds that are left.
  unfoldable pub move_buckets : ℕ → ℕ → HashTable K V → Run (HashTable K V)
  unfolding move_chain at
  move_buckets zero idx h = ok (record h { rehashing_idx = some idx })
  move_buckets (suc rounds) idx h = elim (ltb idx h.size) [
    | true ↦ do
      entries ← at h.table idx
      new ← move_chain entries h.rehashing_tbl h.rehashing_size
      move_buckets rounds (suc idx) (record h { table = set h.table idx []; rehashing_tbl = new })
    | false ↦ ok (record h { rehashing_idx = some idx })
  ]

  -- The end of `rehashStep`: the new table replaces the old one when every bucket has moved.
  unfoldable pub finish_rehashing : HashTable K V → HashTable K V
  finish_rehashing h = elim h.rehashing_idx [
    | none ↦ h
    | some idx ↦
        if idx == h.size
        then record {
          table = h.rehashing_tbl;
          size = h.rehashing_size;
          rehashing_idx = none;
          rehashing_size = 0;
          rehashing_tbl = [];
          count = h.count;
        }
        else h
  ]

  -- With -1 for the index the code would read `h.Table[-1]`.
  unfoldable pub rehash_step : HashTable K V → Run (HashTable K V)
  unfolding move_buckets finish_rehashing
  rehash_step h = elim h.rehashing_idx [
    | none ↦ fault Fault.out_of_range
    | some idx ↦ do h' ← move_buckets rehashing_buckets idx h; ok (finish_rehashing h')
  ]

  -- The step that `Set` and `findPositionForInsert` begin with.
  unfoldable pub step_if_rehashing : HashTable K V → Run (HashTable K V)
  unfolding rehash_step
  step_if_rehashing h = elim h.rehashing_idx [ none ↦ ok h | some _ ↦ rehash_step h ]

  module _ (value_of : V → Value) where
    unfoldable pub increase_memory : ℕ → K → V → ℕ
    increase_memory used k v =
        increase_used_memory (increase_used_memory used (key.value k)) (value_of v)

    unfoldable pub decrease_memory : ℕ → K → V → ℕ
    decrease_memory used k v =
        decrease_used_memory (decrease_used_memory used (key.value k)) (value_of v)

    -- `Set` while the rehashing goes on: the new table alone is read and written.
    unfoldable pub set_new : ℕ → HashTable K V → K → V → Run (ℕ × HashTable K V)
    unfolding hash at put_chain increase_memory
    set_new used h k v = do
      index ← hash k h.rehashing_size
      c ← at h.rehashing_tbl index
      let (c', added) = put_chain k v c
      ok (
        if added then increase_memory used k v else used,
        record h {
          rehashing_tbl = set h.rehashing_tbl index c';
          count = if added then h.count + 1 else h.count;
        },
      )

    -- `Set` on the main table; an overwritten value is counted as used memory once more.
    unfoldable pub set_main : ℕ → HashTable K V → K → V → Run (ℕ × HashTable K V)
    unfolding hash at put_chain increase_memory
    set_main used h k v = do
      index ← hash k h.size
      c ← at h.table index
      let (c', added) = put_chain k v c
      ok (
        increase_memory used k v,
        record h { table = set h.table index c'; count = if added then h.count + 1 else h.count },
      )

    unfoldable pub store : ℕ → HashTable K V → K → V → Run (ℕ × HashTable K V)
    unfolding set_new set_main
    store used h k v = elim h.rehashing_idx [
      | none ↦ set_main used h k v
      | some _ ↦ set_new used h k v
    ]

    -- `Set`: a step of the rehashing, the write, and the deferred check.
    unfoldable pub set_key : ℕ → HashTable K V → K → V → Run (ℕ × HashTable K V)
    unfolding step_if_rehashing store check_load
    set_key used h k v = do
      h' ← step_if_rehashing h
      (used', h'') ← store used h' k v
      ok (used', check_load h'')

    -- The loop of `deleteFromTable` over a chain: the first entry with the key is unlinked.
    unfoldable pub delete_chain : ℕ → K → Chain K V → ℕ × Chain K V × Bool
    unfolding decrease_memory
    delete_chain used k [] = (used, [], false)
    delete_chain used k (e ∷ c) =
        let rest = delete_chain used k c in
        if key.equal e.0 k
        then (decrease_memory used k e.1, c, true)
        else (rest.0, e ∷ rest.1, rest.2)

    unfoldable pub delete_from_table : ℕ → K → List (Chain K V) → Run (ℕ × List (Chain K V) × Bool)
    unfolding hash at delete_chain
    delete_from_table used k table = do
      index ← hash k (length table)
      c ← at table index
      let (used', c', deleted) = delete_chain used k c
      ok (used', set table index c', deleted)

    -- `Delete` leaves `Count` as it is.
    unfoldable pub delete : ℕ → HashTable K V → K → Run (ℕ × HashTable K V × Bool)
    unfolding delete_from_table
    delete used h k = elim h.rehashing_idx [
      | none ↦ do
        (used', table', deleted) ← delete_from_table used k h.table
        ok (used', record h { table = table' }, deleted)
      | some _ ↦ do
        (used', table', from_old) ← delete_from_table used k h.table
        (used'', new', from_new) ← delete_from_table used' k h.rehashing_tbl
        ok (used'', record h { table = table'; rehashing_tbl = new' }, from_old || from_new)
    ]

  unfoldable pub get_from_table : K → List (Chain K V) → ℕ → Run (Option V)
  unfolding hash at find
  get_from_table k table size = do index ← hash k size; c ← at table index; ok (find k c)

  -- `Get`, where `none` is the flag false: the new table first, then the main table.
  unfoldable pub get : HashTable K V → K → Run (Option V)
  unfolding get_from_table
  get h k = elim h.rehashing_idx [
    | none ↦ get_from_table k h.table h.size
    | some _ ↦ do
      found ← get_from_table k h.rehashing_tbl h.rehashing_size
      elim found [ none ↦ get_from_table k h.table h.size | some v ↦ ok (some v) ]
  ]

-- `Len` and `Empty`.
unfoldable pub len {ℓ} : {K V : Type ℓ} → HashTable K V → ℕ
len h = h.count

unfoldable pub is_empty {ℓ} : {K V : Type ℓ} → HashTable K V → Bool
is_empty h = h.count == 0
