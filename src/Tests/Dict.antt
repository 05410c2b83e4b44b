-- ===== src/Tests/Dict.antt =====
-- The hash table of db/dict.go at concrete inputs.
use go_mock_redis.Base.{
  ℕ, ◌≡◌, refl, arith, [], ◌∷◌, none, some, Bytes, ok, Returns-at, Returns, inl,
}
use go_mock_redis.Db.Memory.{Value, int, increase_used_memory}
use go_mock_redis.Base.Tests.{bytes_eq}
use go_mock_redis.Db.Hash.{bytes_key, hash, fnv1a}
use go_mock_redis.Db.Dict.Buckets.{view, home}
use go_mock_redis.Db.Dict.{
  HashTable, new_hash_table, set_key, get, find, increase_memory, delete, store, rehash_step,
}
use go_mock_redis.Db.Dict.Steps.{Models, Stepped, rehash_step-Stepped}
use go_mock_redis.Db.Dict.Tables.{new_hash_table-Models, get-Models}
use go_mock_redis.Db.Dict.Write.{Written, update, set_key-Written}
use go_mock_redis.Db.Dict.Delete.{Removed, delete-Removed}
use go_mock_redis.Db.Dict.Stale.{store-stale}

abbrev foo : Bytes
foo = b'f' ∷ b'o' ∷ b'o' ∷ []

abbrev bar : Bytes
bar = b'b' ∷ b'a' ∷ b'r' ∷ []

abbrev sized : ℕ → Value
sized n = int

abbrev small : HashTable Bytes ℕ
small = new_hash_table 1

small-Models : Models 0 (λ q. none) small
small-Models = new_hash_table-Models 1 (omega arith)

set_key-Written_example :
    Returns (set_key sized 0 small foo 7) (λ r. Written 0 (λ q. none) foo 7 small r.1)
unfolding new_hash_table
set_key-Written_example = set_key-Written sized 0 foo 7 small small-Models (inl refl)

-- The one bucket is full: the write has started a rehashing.
abbrev one : HashTable Bytes ℕ
one = record {
  table = ((foo, 7) ∷ []) ∷ [];
  size = 1;
  rehashing_idx = some 0;
  rehashing_size = 2;
  rehashing_tbl = [] ∷ [] ∷ [];
  count = 1;
}

set_key_run : set_key sized 0 small foo 7 ≡ ok (27, one)
unfolding set_key new_hash_table hash fnv1a increase_memory increase_used_memory
set_key_run = refl

one-Models : Models 1 (update (λ q. none) foo (some 7)) one
one-Models =
    (Returns-at _ (λ r. Written 0 (λ q. none) foo 7 small r.1) _ set_key-Written_example
      set_key_run).models

rehash_step-Stepped_example :
    Returns (rehash_step one) (Stepped 1 (update (λ q. none) foo (some 7)) 0 one)
rehash_step-Stepped_example = rehash_step-Stepped 0 one one-Models refl

store-stale_example :
    Returns
      (store sized 27 one foo 8)
      λ r. (get r.1 foo ≡ ok (some 8)) × Returns (rehash_step r.1) (λ h'. get h' foo ≡ ok (some 7))
unfolding view find home fnv1a bytes_eq
store-stale_example = store-stale foo sized 27 8 one one-Models refl refl (omega arith)

get-Models_example : get one foo ≡ ok (update (λ q. none) foo (some 7) foo)
get-Models_example = get-Models one foo one-Models

delete-Removed_example :
    Returns (delete sized 0 one foo) (Removed sized foo 1 (update (λ q. none) foo (some 7)) one)
delete-Removed_example = delete-Removed sized foo 0 one one-Models
