-- ===== src/Tests/Keyspace.antt =====
-- The keyspace of db/db.go at concrete inputs.
use go_mock_redis.Base.{
  ℕ, ◌≡◌, suc, refl, arith, Option, none, some, true, Bytes, codes, Run, ok, fault, Returns-at,
  Returns, inl,
}
use go_mock_redis.Base.Tests.{bytes_eq}
use go_mock_redis.Db.Hash.{bytes_key, hash, fnv1a}
use go_mock_redis.Db.Dict.{new_hash_table}
use go_mock_redis.Db.Dict.Tables.{new_hash_table-Models}
use go_mock_redis.Db.Dict.Write.{update}
use go_mock_redis.Db.Dict.Insert.{add_raw}
use go_mock_redis.Db.Dict.Insert.Fresh.{Added, add_raw-Added}
use go_mock_redis.Db.Object.{RedisObj, str, string_type, encoding_raw}
use go_mock_redis.Db.Keyspace
use go_mock_redis.Db.Keyspace.{
  RedisDb, Dictionary, Expires, lookup_key, lookup_none, set_key, set_expire, rm_expire, get_expire,
  generic_delete, no_expire,
}
use go_mock_redis.Db.Keyspace.Lookup.{IsDb, Hit, lookup_key-Hit, accessed}
use go_mock_redis.Db.Keyspace.Expire.{set_expire-IsDb, generic_delete-IsDb}
use go_mock_redis.Db.Keyspace.Store.{set_key_existing, set_key_new}

abbrev pub foo : Bytes
foo = codes "foo"

abbrev pub text : Bytes → RedisObj
text s = record { type = string_type; encoding = encoding_raw; lru = 0; value = str s }

abbrev pub hello : RedisObj
hello = text (codes "hello")

-- The result of a run that does not fail.
abbrev pub result {ℓ} : {A : Type ℓ} → Run A → A → A
result (ok a) d = a
result (fault e) d = d

abbrev pub nothing {ℓ} : {A : Type ℓ} → Bytes → Option A
nothing q = none

unfoldable pub db₀ : RedisDb
unfolding Keyspace.new new_hash_table
db₀ = Keyspace.new 0 0

pub db₀-IsDb : IsDb 0 nothing 0 nothing db₀
unfolding db₀ Keyspace.new
db₀-IsDb = record {
  objects = new_hash_table-Models 16 (omega arith);
  times = new_hash_table-Models 16 (omega arith);
}

-- The flags for a new key without an expire time: SetKeyKeepTTL and SetKeyDoesNotExist.
abbrev new_key : ℕ
new_key = 9

-- One key, without an expire time.
unfoldable pub db₁ : RedisDb
unfolding db₀ set_key
db₁ = result (set_key db₀ foo hello new_key) db₀

abbrev pub holds_hello : Bytes → Option (Option RedisObj)
holds_hello = update nothing foo (some (some (accessed hello)))

db₁_run : set_key db₀ foo hello new_key ≡ ok db₁
unfolding db₁ db₀ set_key add_raw bytes_eq fnv1a hash
db₁_run = refl

pub db₁-IsDb : IsDb 1 holds_hello 0 nothing db₁
unfolding db₀
db₁-IsDb =
    Returns-at _ (IsDb 1 holds_hello 0 nothing) db₁
      (set_key_new db₀ foo hello db₀-IsDb new_key refl refl refl refl refl) db₁_run

lookup_key-Hit_example :
    Returns
      (lookup_key db₁ foo lookup_none)
      (Hit 1 holds_hello 0 nothing foo (accessed hello) lookup_none db₁)
unfolding bytes_eq
lookup_key-Hit_example = lookup_key-Hit db₁ foo lookup_none db₁-IsDb (accessed hello) refl refl

-- SetKeyAlreadyExists without SetKeyKeepTTL.
set_key_existing_example : Returns (set_key db₁ foo (text (codes "bye")) 4) (
    IsDb 1
      (update holds_hello foo (some (some (accessed (text (codes "bye"))))))
      0
      (update nothing foo none))
unfolding bytes_eq
set_key_existing_example =
    set_key_existing db₁ foo (text (codes "bye")) db₁-IsDb 4 (accessed hello) refl refl

add_raw-Added_example : Returns (add_raw none 0 db₀.dict foo) (Added foo 0 nothing none db₀.dict)
unfolding db₀ Keyspace.new new_hash_table
add_raw-Added_example = add_raw-Added foo none 0 db₀.dict db₀-IsDb.objects refl refl

-- The key with an expire time.
unfoldable pub db₂ : RedisDb
unfolding db₁ set_expire
db₂ = result (set_expire db₁ foo 5000) db₁

db₂_run : set_expire db₁ foo 5000 ≡ ok db₂
unfolding db₂ db₁ db₀ set_key set_expire add_raw bytes_eq fnv1a hash
db₂_run = refl

abbrev expires : Bytes → Option ℕ
expires = update nothing foo (some 5000)

db₂-IsDb : IsDb 1 holds_hello 1 expires db₂
unfolding bytes_eq db₁ db₀ fnv1a
db₂-IsDb =
    (Returns-at _ _ db₂
      (set_expire-IsDb db₁ foo db₁-IsDb 5000 (some (accessed hello)) refl (inl refl)) db₂_run).0

one_ne_zero : ¬ ((suc 0) ≡ 0)
one_ne_zero e = omega arith

generic_delete-IsDb_example :
    Returns
      (generic_delete db₂ foo)
      (λ r. (r.1 ≡ true) × IsDb 0 (update holds_hello foo none) 0 (update expires foo none) r.0)
unfolding bytes_eq
generic_delete-IsDb_example = generic_delete-IsDb db₂ foo db₂-IsDb (some (accessed hello)) refl
