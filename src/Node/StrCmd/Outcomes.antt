-- ===== src/Node/StrCmd/Outcomes.antt =====
-- node/strcmd.go, `setGenericCommand`: the outcomes of SET without an expire time.
use mathlib.Core.Path.{subst, ◌∙◌}
use go_mock_redis.Base.{
  ℕ, ◌+◌, ◌≡◌, ap, refl, Bool, true, false, not, ◌||◌, ◌∷◌, ◌++◌, arith, Bytes, codes, crlf, Option,
  none, some, ok, Returns,
}
use go_mock_redis.Base.Words.{set_bit}
use go_mock_redis.Db.Dict.Write.{update, absent}
use go_mock_redis.Db.Hash.{bytes_key}
use go_mock_redis.Db.Object.{RedisObj}
use go_mock_redis.Db.Keyspace.{
  RedisDb, set_key, lookup_key, lookup_key_write, lookup_none, lookup_write_bit,
}
use go_mock_redis.Db.Keyspace.Lookup.{IsDb, lookup_key-Hit, lookup_key_miss, accessed, Hit, counts}
use go_mock_redis.Db.Keyspace.Store.{set_key_existing, set_key_new, update_twice}
use go_mock_redis.Node.Client.Replies.{IsWritable}
use go_mock_redis.Node.Options.{TimeUnit, has, keep_ttl, xx, nx}
use go_mock_redis.Node.StrCmd.{StrCmd, set_key_flags, set_generic_command}
use go_mock_redis.Node.StrCmd.Stores.{
  Stored, stored, replied, set_key_flags-bits, set_generic_stores, set_generic_refuses, refuses,
  refuses_existing, refuses_missing, store_and_reply_run,
}

always : (b : Bool) → (b || not false) ≡ true
always true = refl
always false = refl

sum_absent : {A : Type 0} (n : ℕ) (v : Option A) (a : A) → v ≡ some a → n ≡ n + absent v
sum_absent n v a held = rw held (omega arith)

module _ {n m : ℕ} {f : Bytes → Option (Option RedisObj)} {g : Bytes → Option ℕ} (cmd : StrCmd)
    (flags : ℕ) (key : Bytes) (val : RedisObj) (unit : TimeUnit) (w : IsWritable cmd.c)
    (valid : IsDb n f m g cmd.db) where
  set_key-existing :
      (o : RedisObj) (db : RedisDb)
      → IsDb n (update f key (some (some o))) m g db
      → Returns
          (set_key db key val (set_key_flags flags false true))
          (IsDb n (update f key (some (some (record val { lru = o.lru })))) m g)
  set_key-existing o db valid' =
      let (keeps, exists, never, known) = set_key_flags-bits flags false true in
      let found : update f key (some (some o)) key ≡ some (some o) =
        rw (bytes_key.equal_refl key) refl in
      let (db', run, after) =
        set_key_existing db key val valid' (set_key_flags flags false true) o found exists in
      let same = update_twice f key (some (some o)) (some (some (record val { lru = o.lru }))) in
      let keep = keeps ∙ always (has flags keep_ttl) in
      (db', run, subst (λ h. IsDb n h m g db') same (rw keep at after))

  set_key-missing :
      (db : RedisDb)
      → IsDb n f m g db
      → db.dict.rehashing_idx ≡ none
      → f key ≡ none
      → Returns
          (set_key db key val (set_key_flags flags false false))
          (IsDb (n + 1) (update f key (some (some (stored val)))) m g)
  set_key-missing db valid' rest gone =
      let (keeps, exists, never, known) = set_key_flags-bits flags false false in
      let (db', run, after) =
        set_key_new db key val valid' (set_key_flags flags false false) rest gone exists known
          never in
      let keep = keeps ∙ always (has flags keep_ttl) in (db', run, rw keep at after)

  looked_up :
      (o : RedisObj) (r : RedisDb × Option (Option RedisObj))
      → lookup_key cmd.db key (set_bit lookup_none lookup_write_bit) ≡ ok r
      → Hit n f m g key o (set_bit lookup_none lookup_write_bit) cmd.db r
      → lookup_key_write cmd.db key ≡ ok (r.0, some (some (accessed o)))
  unfolding lookup_key_write
  looked_up o r run hit = run ∙ ap (λ v. ok (r.0, v)) hit.returns

  -- A SET without an expire time and without NX, by a client that may be written to, of a key that
  -- holds an object, replaces the object, keeps every expire time, also the key's own one, and
  -- sends OK unless the flag GET is set.
  pub set_generic_existing :
      (o : RedisObj)
      → f key ≡ some (some o)
      → has flags nx ≡ false
      → Returns (set_generic_command cmd flags key val none unit) (Stored n f m g cmd flags key val)
  set_generic_existing o held free =
      let (r, run, hit) =
        lookup_key-Hit cmd.db key (set_bit lookup_none lookup_write_bit) valid o held refl in
      let (db', run', after) = set_key-existing (accessed o) r.0 hit.after in
      let end =
        store_and_reply_run (record { c = cmd.c; db = r.0 }) flags key val true db' w run' in
      let go : refuses flags true ≡ false = refuses_existing flags ∙ free in
      (
        record { c = replied flags cmd.c (codes "OK" ++ crlf); db = db' },
        set_generic_stores cmd flags key val unit r.0 (some (some (accessed o)))
              (looked_up o r run hit) go
            ∙ end,
        record {
          after =
              subst (λ k. IsDb k (update f key (some (some (stored val)))) m g db')
                (sum_absent n (f key) (some o) held) after;
          reply = refl;
        },
      )

  -- A SET without an expire time and without XX, by a client that may be written to, of an absent
  -- key on a dictionary that is not rehashing, stores the object, keeps every expire time, and
  -- sends OK unless the flag GET is set.
  pub set_generic_missing :
      cmd.db.dict.rehashing_idx ≡ none
      → f key ≡ none
      → has flags xx ≡ false
      → Returns (set_generic_command cmd flags key val none unit) (Stored n f m g cmd flags key val)
  unfolding lookup_key_write
  set_generic_missing rest gone free =
      let run = lookup_key_miss cmd.db key (set_bit lookup_none lookup_write_bit) valid gone in
      let db₁ : RedisDb = record cmd.db {
        stat_key_space_misses =
            cmd.db.stat_key_space_misses + counts (set_bit lookup_none lookup_write_bit);
      } in
      let (db', run', after) =
        set_key-missing db₁ (record { objects = valid.objects; times = valid.times }) rest gone in
      let end =
        store_and_reply_run (record { c = cmd.c; db = db₁ }) flags key val false db' w run' in
      (
        record { c = replied flags cmd.c (codes "OK" ++ crlf); db = db' },
        set_generic_stores cmd flags key val unit db₁ none run (refuses_missing flags ∙ free) ∙ end,
        record { after = rw gone after; reply = refl },
      )

  -- A SET with NX and without an expire time, by a client that may be written to, of a key that
  -- holds an object, changes no object but for the access time of the one found, changes no expire
  -- time, and sends null unless the flag GET is set.
  set_generic_nx :
      (o : RedisObj)
      → f key ≡ some (some o)
      → has flags nx ≡ true
      → Returns (set_generic_command cmd flags key val none unit) (λ r.
        IsDb n (update f key (some (some (accessed o)))) m g r.db
        × (r.c ≡ replied flags cmd.c (b'_' ∷ crlf)))
  set_generic_nx o held blocked =
      let (r, run, hit) =
        lookup_key-Hit cmd.db key (set_bit lookup_none lookup_write_bit) valid o held refl in
      (
        record { c = replied flags cmd.c (b'_' ∷ crlf); db = r.0 },
        set_generic_refuses cmd flags key val unit r.0 (some (some (accessed o)))
            (looked_up o r run hit) w (refuses_existing flags ∙ blocked),
        (hit.after, refl),
      )

  -- A SET with XX and without an expire time, by a client that may be written to, of an absent
  -- key, changes no object and no expire time, and sends null unless the flag GET is set.
  set_generic_xx :
      f key ≡ none
      → has flags xx ≡ true
      → Returns
          (set_generic_command cmd flags key val none unit)
          (λ r. IsDb n f m g r.db × (r.c ≡ replied flags cmd.c (b'_' ∷ crlf)))
  unfolding lookup_key_write
  set_generic_xx gone blocked =
      let run = lookup_key_miss cmd.db key (set_bit lookup_none lookup_write_bit) valid gone in
      (
        _,
        set_generic_refuses cmd flags key val unit _ none run w (refuses_missing flags ∙ blocked),
        (record { objects = valid.objects; times = valid.times }, refl),
      )
