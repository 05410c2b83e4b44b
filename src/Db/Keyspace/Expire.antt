-- ===== src/Db/Keyspace/Expire.antt =====
-- db/db.go, `GetExpire`, `SetExpire`, `RmExpire` and `GenericDelete`.
use go_mock_redis.Base.{
  ℕ, ◌+◌, ◌-◌, ◌≡◌, ◌≢◌, refl, ◌∙◌, true, false, arith, Bytes, ◌==◌, Option, none, some, ok, ◌>>=◌,
  Returns,
}
use go_mock_redis.Db.Hash.{bytes_key}
use go_mock_redis.Db.Dict.{is_empty}
use go_mock_redis.Db.Dict.Chains.{is_some, to_nat}
use go_mock_redis.Db.Dict.Tables.{get-Models}
use go_mock_redis.Db.Dict.Write.{update, absent, IsFresh, set_key-Written}
use go_mock_redis.Db.Dict.Delete.{delete-Removed}
use go_mock_redis.Db.Object.{RedisObj}
use go_mock_redis.Db.Keyspace.{
  RedisDb, object_value, expire_value, rm_expire, set_expire, get_expire, generic_delete, no_expire,
}
use go_mock_redis.Db.Keyspace.Lookup.{IsDb}

module _ {n m : ℕ} {f : Bytes → Option (Option RedisObj)} {g : Bytes → Option ℕ} (db : RedisDb)
    (key : Bytes) (valid : IsDb n f m g db) where
  -- `RmExpire` of a key that is in the keyspace removes its expire time and leaves the dictionary
  -- as it is.
  pub rm_expire-IsDb :
      (o : Option RedisObj)
      → f key ≡ some o
      → Returns (rm_expire db key) (λ db'.
        IsDb n f (m - to_nat (is_some (g key))) (update g key none) db' × (db'.dict ≡ db.dict))
  unfolding rm_expire
  rm_expire-IsDb o held =
      let (r, run, w) = delete-Removed expire_value key db.used_memory db.expire valid.times in
      (
        record db { expire = r.1; used_memory = r.0 },
        rw (get-Models db.dict key valid.objects, held, ◌>>=◌, run),
        (record { objects = valid.objects; times = rw w.found at w.models }, refl),
      )

  -- `SetExpire` of a key that holds an object records the time for the key and changes no object,
  -- provided that the key does not wait in the old part of the table of times.
  pub set_expire-IsDb :
      (when : ℕ) (o : Option RedisObj)
      → f key ≡ some o
      → IsFresh db.expire key
      → Returns (set_expire db key when) (λ db'.
        IsDb n f (m + absent (g key)) (update g key (some when)) db'
        × (db'.expire.count ≡ db.expire.count + absent (g key)))
  unfolding set_expire
  set_expire-IsDb when o held fresh =
      let (r, run, w) =
        set_key-Written expire_value db.used_memory key when db.expire valid.times fresh in
      (
        record db { expire = r.1; used_memory = r.0 },
        rw (get-Models db.dict key valid.objects, held, ◌>>=◌, run),
        (record { objects = valid.objects; times = w.models }, w.counted),
      )

  set_expire_missing : (when : ℕ) → f key ≡ none → set_expire db key when ≡ ok db
  unfolding set_expire
  set_expire_missing when absent = rw (get-Models db.dict key valid.objects, absent)

  -- `GetExpire` returns the recorded time of a key and -1 for a key without one, provided that the
  -- counter of the table of times is not 0.
  get_expire-IsDb :
      (db.expire.count ≢ 0)
      → get_expire db key ≡ ok (elim (g key) [ none ↦ no_expire | some when ↦ when ])
  unfolding get_expire is_empty
  get_expire-IsDb counted =
      let filled : (db.expire.count == 0) ≡ false = ground arith in
      rw (filled, get_expire, get-Models db.expire key valid.times) (ground arith)

  -- `GenericDelete` of a key of the keyspace removes its object and its expire time and reports
  -- success.
  pub generic_delete-IsDb :
      (o : Option RedisObj)
      → f key ≡ some o
      → Returns (generic_delete db key) (λ r.
        (r.1 ≡ true)
        × IsDb (n - 1) (update f key none) (m - to_nat (is_some (g key))) (update g key none) r.0)
  unfolding generic_delete
  generic_delete-IsDb o held =
      let (r, run, w) = delete-Removed object_value key db.used_memory db.dict valid.objects in
      let (s, run', w') = delete-Removed expire_value key r.0 db.expire valid.times in
      let there : r.2 ≡ true = w.found ∙ rw held in
      (
        (record db { dict = r.1; expire = s.1; used_memory = s.0 }, true),
        rw (run, ◌>>=◌, there, run'),
        (refl, record { objects = rw there at w.models; times = rw w'.found at w'.models }),
      )
