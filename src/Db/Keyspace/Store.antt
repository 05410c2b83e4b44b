-- ===== src/Db/Keyspace/Store.antt =====
-- db/db.go, `SetKey` and what it calls: `setValue`, `add` and `addInternal`.
use mathlib.Core.Path.{fun_ext, subst}
use go_mock_redis.Base.{
  ℕ, ◌+◌, ◌-◌, ◌≡◌, refl, true, false, ◌&&◌, arith, Bytes, if◌then◌else◌, Option, none, some, ok,
  ◌>>=◌, Returns, Bool-cases, inl, inr,
}
use go_mock_redis.Base.Words.{has_bit}
use go_mock_redis.Db.Hash.{Key, bytes_key}
use go_mock_redis.Db.Dict.Chains.{is_some, to_nat}
use go_mock_redis.Db.Dict.Insert.Pointers.{set_val-Rewritten}
use go_mock_redis.Db.Dict.Insert.Entry.{get_entry-Found}
use go_mock_redis.Db.Dict.Insert.Fresh.{add_raw-Added}
use go_mock_redis.Db.Dict.Steps.{Models}
use go_mock_redis.Db.Dict.Write.{update}
use go_mock_redis.Db.Object.{RedisObj, access_time, init_object_lru_or_lfu}
use go_mock_redis.Db.Keyspace.{
  RedisDb, object_value, set_value, add, rm_expire, find_out, set_key, keep_ttl_bit,
  already_exists_bit, does_not_exist_bit, add_or_updated_bit,
}
use go_mock_redis.Db.Keyspace.Lookup.{IsDb}
use go_mock_redis.Db.Keyspace.Expire.{rm_expire-IsDb}

-- Two writes at one key are the second one.
pub update_twice {ℓ} :
    {K V : Type ℓ} ⦃key : Key K⦄ (f : K → Option V) (k : K) (a b : Option V)
    → update (update f k a) k b ≡ update f k b
update_twice ⦃key⦄ f k a b = fun_ext (λ q. ground arith)

module _ {n m : ℕ} {f : Bytes → Option (Option RedisObj)} {g : Bytes → Option ℕ} (db : RedisDb)
    (key : Bytes) (val : RedisObj) (valid : IsDb n f m g db) where
  set_value-IsDb :
      (o : RedisObj)
      → f key ≡ some (some o)
      → Returns
          (set_value db key val none)
          (IsDb n (update f key (some (some (record val { lru = o.lru })))) m g)
  unfolding set_value
  set_value-IsDb o held =
      let (slot, run, found) = get_entry-Found key db.dict valid.objects held in
      let (r, run', w) =
        set_val-Rewritten key object_value db.used_memory (some (record val { lru = o.lru }))
          db.dict found.slot valid.objects found.points in
      (
        record db { dict = r.1; used_memory = r.0 },
        rw (run, ◌>>=◌, found.holds, ◌>>=◌, found.is_slot, run'),
        record { objects = w.models; times = valid.times },
      )

  -- The two lookups of the flag's branch are the same: nothing is updated in place.
  add-IsDb :
      db.dict.rehashing_idx ≡ none
      → f key ≡ none
      → Returns
          (add db key val)
          (IsDb (n + 1) (update f key (some (some (record val { lru = access_time })))) m g)
  unfolding add init_object_lru_or_lfu
  add-IsDb rest absent =
      let (r, run, a) = add_raw-Added key none db.used_memory db.dict valid.objects rest absent in
      let (s, run', w) =
        set_val-Rewritten key object_value r.0 (some (record val { lru = access_time })) r.1 r.2
          a.models a.points in
      let never : (r.3 && false) ≡ false = ground arith in
      (
        record db { dict = s.1; used_memory = s.0 },
        rw (run, ◌>>=◌, never, run'),
        record {
          objects = subst (λ h. Models (n + 1) h s.1) (update_twice f key (some none) _) w.models;
          times = valid.times;
        },
      )

  -- Whether the flag `SetKeyKeepTTL` keeps the expire time.
  abbrev times_after : ℕ → Bytes → Option ℕ
  times_after flags = if has_bit flags keep_ttl_bit then g else update g key none

  abbrev count_after : ℕ → ℕ
  count_after flags = if has_bit flags keep_ttl_bit then m else m - to_nat (is_some (g key))

  set_key_end :
      {n' : ℕ} {f' : Bytes → Option (Option RedisObj)} (db' : RedisDb) (flags : ℕ)
      (o : Option RedisObj)
      → IsDb n' f' m g db'
      → f' key ≡ some o
      → Returns
          (if has_bit flags keep_ttl_bit then ok db' else rm_expire db' key)
          (IsDb n' f' (count_after flags) (times_after flags))
  set_key_end db' flags o valid' held = elim (Bool-cases (has_bit flags keep_ttl_bit)) [
    | inl keep ↦ rw keep (db', refl, valid')
    | inr drop ↦
        let (db'', run, (after, same)) = rm_expire-IsDb db' key valid' o held in
        rw drop (db'', run, after)
  ]

  -- `SetKey` of a key that holds an object, with the flag that the key exists, replaces the
  -- object, which takes over the access time of the old one, and drops the expire time of the key
  -- unless the flags keep it.
  pub set_key_existing :
      (flags : ℕ) (o : RedisObj)
      → f key ≡ some (some o)
      → has_bit flags already_exists_bit ≡ true
      → Returns (set_key db key val flags) (
          IsDb n
            (update f key (some (some (record val { lru = o.lru }))))
            (count_after flags)
            (times_after flags))
  unfolding set_key find_out
  set_key_existing flags o held exists =
      let (db', run, after) = set_value-IsDb o held in
      let (db'', run', end) =
        set_key_end db' flags (some (record val { lru = o.lru })) after
          (rw (bytes_key.equal_refl key)) in
      (db'', rw (exists, ◌>>=◌, run) run', end)

  -- `SetKey` of an absent key, with the flag that the key does not exist and without the flags
  -- that it exists or that this is unknown, on a dictionary that is not rehashing, stores the
  -- object with a new access time, and drops an expire time of the key unless the flags keep it.
  pub set_key_new :
      (flags : ℕ)
      → db.dict.rehashing_idx ≡ none
      → f key ≡ none
      → has_bit flags already_exists_bit ≡ false
      → has_bit flags add_or_updated_bit ≡ false
      → has_bit flags does_not_exist_bit ≡ true
      → Returns (set_key db key val flags) (
          IsDb
            (n + 1)
            (update f key (some (some (record val { lru = access_time }))))
            (count_after flags)
            (times_after flags))
  unfolding set_key find_out
  set_key_new flags rest absent e₁ e₂ e₃ =
      let (db', run, after) = add-IsDb rest absent in
      let (db'', run', end) =
        set_key_end db' flags (some (record val { lru = access_time })) after
          (rw (bytes_key.equal_refl key)) in
      (db'', rw (e₁, e₂, e₃, ◌>>=◌, run) run', end)
