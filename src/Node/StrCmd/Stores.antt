-- ===== src/Node/StrCmd/Stores.antt =====
-- node/strcmd.go, `setGenericCommand`: what it stores and what it replies.
use go_mock_redis.Base.{
  ℕ, ◌+◌, ◌≡◌, refl, Bool, true, false, not, ◌&&◌, ◌||◌, ◌∷◌, ◌++◌, Bytes, codes, crlf,
  if◌then◌else◌, Option, none, some, ok, ◌>>=◌, Bool-cases, inl, inr,
}
use go_mock_redis.Base.Words.{has_bit}
use go_mock_redis.Db.Dict.Write.{update, absent}
use go_mock_redis.Db.Hash.{bytes_key}
use go_mock_redis.Db.Object.{RedisObj, encoding_object, access_time}
use go_mock_redis.Db.Keyspace.{
  RedisDb, set_key, lookup_key_write, keep_ttl_bit, already_exists_bit, does_not_exist_bit,
  add_or_updated_bit,
}
use go_mock_redis.Db.Keyspace.Lookup.{IsDb}
use go_mock_redis.Node.Client.{Client, shared_ok, shared_null_3}
use go_mock_redis.Node.Client.Replies.{IsText, IsWritable, sent, add_reply-sent}
use go_mock_redis.Node.Options.{TimeUnit, has, keep_ttl, get, xx, nx}
use go_mock_redis.Node.StrCmd.{
  StrCmd, set_key_flags, set_generic_command, read_expire, store_and_reply, is_given,
}

-- The flags that SET hands to `SetKey` say that the key exists or that it does not, as it is,
-- never that this is unknown, and keep the expire time with KEEPTTL and in every command without
-- an expire time.
pub set_key_flags-bits :
    (flags : ℕ) (expiring exist : Bool)
    → (has_bit (set_key_flags flags expiring exist) keep_ttl_bit
        ≡ (has flags keep_ttl || not expiring))
      × (has_bit (set_key_flags flags expiring exist) already_exists_bit ≡ exist)
      × (has_bit (set_key_flags flags expiring exist) does_not_exist_bit ≡ not exist)
      × (has_bit (set_key_flags flags expiring exist) add_or_updated_bit ≡ false)
unfolding set_key_flags
set_key_flags-bits flags expiring true = elim (Bool-cases (has flags keep_ttl || not expiring)) [
  | inl t ↦ rw t (refl, refl, refl, refl)
  | inr f ↦ rw f (refl, refl, refl, refl)
]
set_key_flags-bits flags expiring false = elim (Bool-cases (has flags keep_ttl || not expiring)) [
  | inl t ↦ rw t (refl, refl, refl, refl)
  | inr f ↦ rw f (refl, refl, refl, refl)
]

-- The client after a reply that the flag GET suppresses.
abbrev pub replied : ℕ → Client → Bytes → Client
replied flags c s = if has flags get then c else sent c s

shared_ok-IsText : IsText shared_ok (codes "OK" ++ crlf)
unfolding shared_ok encoding_object
shared_ok-IsText = record { encoded = refl; text = refl }

pub shared_null_3-IsText : IsText shared_null_3 (b'_' ∷ crlf)
unfolding shared_null_3 encoding_object
shared_null_3-IsText = record { encoded = refl; text = refl }

-- The object that a command has stored.
abbrev pub stored : RedisObj → RedisObj
stored val = record val { lru = access_time }

-- The state after a command without an expire time has stored an object: the map holds it, every
-- expire time is kept, and OK has been sent unless GET suppresses it.
pub record Stored (n : ℕ) (f : Bytes → Option (Option RedisObj)) (m : ℕ) (g : Bytes → Option ℕ)
    (cmd : StrCmd) (flags : ℕ) (key : Bytes) (val : RedisObj) (r : StrCmd) : Type 0 where
  pub after : IsDb (n + absent (f key)) (update f key (some (some (stored val)))) m g r.db
  pub reply : r.c ≡ replied flags cmd.c (codes "OK" ++ crlf)

pub store_and_reply_run :
    (cmd : StrCmd) (flags : ℕ) (key : Bytes) (val : RedisObj) (exist : Bool) (db' : RedisDb)
    → IsWritable cmd.c
    → set_key cmd.db key val (set_key_flags flags false exist) ≡ ok db'
    → store_and_reply cmd flags key val none exist
      ≡ ok (record { c = replied flags cmd.c (codes "OK" ++ crlf); db = db' })
unfolding store_and_reply
store_and_reply_run cmd flags key val exist db' w run = elim (Bool-cases (has flags get)) [
  | inl t ↦ rw (run, ◌>>=◌, t) refl
  | inr f ↦ rw (run, ◌>>=◌, f, add_reply-sent cmd.c w shared_ok _ shared_ok-IsText) refl
]

and_true : (b : Bool) → (b && true) ≡ b
and_true true = refl
and_true false = refl

and_false : (b : Bool) → (b && false) ≡ false
and_false true = refl
and_false false = refl

-- The condition under which nothing is stored.
abbrev pub refuses : ℕ → Bool → Bool
refuses flags exist = (has flags xx && not exist) || (has flags nx && exist)

pub refuses_existing : (flags : ℕ) → refuses flags true ≡ has flags nx
refuses_existing flags = elim (Bool-cases (has flags xx)) [
  | inl t ↦ rw t (and_true (has flags nx))
  | inr f ↦ rw f (and_true (has flags nx))
]

pub refuses_missing : (flags : ℕ) → refuses flags false ≡ has flags xx
refuses_missing flags = elim (Bool-cases (has flags xx)) [
  | inl t ↦ rw t refl
  | inr f ↦ rw f (and_false (has flags nx))
]

module _ (cmd : StrCmd) (flags : ℕ) (key : Bytes) (val : RedisObj) (unit : TimeUnit) (db' : RedisDb)
    (found : Option (Option RedisObj))
    (looked : lookup_key_write cmd.db key ≡ ok (db', found)) where
  pub set_generic_stores :
      refuses flags (is_given found) ≡ false
      → set_generic_command cmd flags key val none unit
        ≡ store_and_reply (record { c = cmd.c; db = db' }) flags key val none (is_given found)
  unfolding set_generic_command read_expire
  set_generic_stores free = rw (looked, ◌>>=◌, free) refl

  -- A refused command changes nothing but what the lookup does, and replies with null unless GET
  -- suppresses it.
  pub set_generic_refuses :
      IsWritable cmd.c
      → refuses flags (is_given found) ≡ true
      → set_generic_command cmd flags key val none unit
        ≡ ok (record { c = replied flags cmd.c (b'_' ∷ crlf); db = db' })
  unfolding set_generic_command read_expire
  set_generic_refuses w blocked = elim (Bool-cases (has flags get)) [
    | inl t ↦ rw (looked, ◌>>=◌, blocked, t) refl
    | inr f ↦
        rw (looked, ◌>>=◌, blocked, f, add_reply-sent cmd.c w shared_null_3 _ shared_null_3-IsText)
          refl
  ]
