-- ===== src/Db/Set.antt =====
-- db/set.go: a set over the hash table.
use go_mock_redis.Base.{ℕ, ◌≡◌, refl, Bool, Option, Run, ok, ◌>>=◌}
use go_mock_redis.Db.Memory.{Value, other}
use go_mock_redis.Db.Hash.{Key}
use go_mock_redis.Db.Dict
use go_mock_redis.Db.Dict.{HashTable, new_hash_table, delete}
use go_mock_redis.Db.Dict.Chains.{is_some}
use go_mock_redis.Db.Dict.Steps.{Models}
use go_mock_redis.Db.Dict.Tables.{get-Models}

pub data Sentinel : Type 0 where
  sentinel : Sentinel

pub record Set (T : Type 0) : Type 0 where
  pub data_table : HashTable T Sentinel

abbrev sentinel_value : Sentinel → Value
sentinel_value s = other

unfoldable pub new_set : {T : Type 0} → ℕ → Set T
new_set init_size = record { data_table = new_hash_table init_size }

module _ {T : Type 0} ⦃key : Key T⦄ where
  unfoldable pub add : ℕ → Set T → T → Run (ℕ × Set T)
  unfolding Dict.set_key
  add used s k = do
    (used', h) ← Dict.set_key sentinel_value used s.data_table k sentinel
    ok (used', record { data_table = h })

  unfoldable pub contains : Set T → T → Run Bool
  unfolding Dict.get
  contains s k = do found ← Dict.get s.data_table k; ok (is_some found)

  unfoldable pub remove : ℕ → Set T → T → Run (ℕ × Set T)
  unfolding delete
  remove used s k = do
    (used', h, deleted) ← delete sentinel_value used s.data_table k
    ok (used', record { data_table = h })

  -- A set whose table stands for a map contains the keys of the map.
  contains-Models :
      {total : ℕ} {f : T → Option Sentinel} (s : Set T) (k : T)
      → Models total f s.data_table
      → contains s k ≡ ok (is_some (f k))
  unfolding contains
  contains-Models s k m = rw (get-Models s.data_table k m) refl
