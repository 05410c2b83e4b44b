-- ===== src/Db/Dict/Write.antt =====
-- db/dict.go, `Set`: what a write does to the map that a table stands for.
use mathlib.Core.Option.{or_else}
use go_mock_redis.Base.{
  ℕ, ◌+◌, ◌<◌, ◌≡◌, ◌⊎◌, refl, List, [], arith, if◌then◌else◌, Option, none, some, set, ok, Returns,
  Option-cases, inl, inr,
}
use go_mock_redis.Db.Memory.{Value}
use go_mock_redis.Db.Hash.{Key}
use go_mock_redis.Db.Dict.{
  Chain, HashTable, put_chain, set_main, set_new, set_key, increase_memory, check_load, store,
  step_if_rehashing,
}
use go_mock_redis.Db.Dict.Chains.{to_nat, find-put_chain, count-put_chain-le, added-put_chain}
use go_mock_redis.Db.Dict.Buckets.{
  home, home-lt, hash-home, at-get_or, entries, bucket, view, Holds, set-Holds,
}
use go_mock_redis.Db.Dict.Rehash.{IsMoving}
use go_mock_redis.Db.Dict.Steps.{Models, step_if_rehashing-Models}
use go_mock_redis.Db.Dict.Tables.{check_load-Models, check_load-count}

abbrev pub update {ℓ} : {K V : Type ℓ} ⦃key : Key K⦄ → (K → Option V) → K → Option V → K → Option V
update ⦃key⦄ f k w q = if key.equal k q then w else f q

-- 1 for a key that is not there.
abbrev pub absent {ℓ} : {A : Type ℓ} → Option A → ℕ
absent none = 1
absent (some a) = 0

-- The table lacks the key in the part that has not moved yet.
abbrev pub IsFresh {ℓ} : {K V : Type ℓ} ⦃key : Key K⦄ → HashTable K V → K → Type ℓ
IsFresh h k = (h.rehashing_idx ≡ none) ⊎ (view h.size h.table k ≡ none)

module _ {ℓ} {K V : Type ℓ} ⦃key : Key K⦄ where
  pub Models-resting :
      {total : ℕ} {f : K → Option V} {h : HashTable K V}
      → h.rehashing_idx ≡ none
      → 0 < h.size
      → Holds h.size total f h.table
      → Models total f h
  Models-resting e pos t = record { resting = λ _. (pos, t); moving = λ i p. absurd (cc) }

  -- The table after `Set`: it reads the value under the key, and one more entry is counted and
  -- stored if the key was absent.
  pub record Written (total : ℕ) (f : K → Option V) (k : K) (v : V) (h h' : HashTable K V)
      : Type ℓ where
    pub models : Models (total + absent (f k)) (update f k (some v)) h'
    pub counted : h'.count ≡ h.count + absent (f k)

  module _ (value_of : V → Value) (used : ℕ) (k : K) (v : V) where
    -- A bucket of either table with the new chain in it.
    put-Holds :
        {n total : ℕ} {f : K → Option V} (t : List (Chain K V))
        → 0 < n
        → Holds n total f t
        → Holds n
            (total + to_nat (put_chain k v (bucket t (home k n))).1)
            (update f k (some v))
            (set t (home k n) (put_chain k v (bucket t (home k n))).0)
    put-Holds {n} t pos holds =
        let c = bucket t (home k n) in
        let u =
          set-Holds t pos holds.width holds.placed k (some v) (put_chain k v c).0 _
            (omega (arith, (added-put_chain k v c).1, holds.size)) (λ q. count-put_chain-le k q v c)
            (λ q. find-put_chain k q v c) in
        record {
          width = u.width;
          size = u.size;
          placed = u.placed;
          reads = λ q. ground (arith, u.reads q, holds.reads q);
        }

    added-absent :
        {n total : ℕ} {f : K → Option V} (t : List (Chain K V))
        → Holds n total f t
        → to_nat (put_chain k v (bucket t (home k n))).1 ≡ absent (f k)
    unfolding view
    added-absent {n} t holds =
        ground (arith, holds.reads k, (added-put_chain k v (bucket t (home k n))).0)

    set_main-Written :
        {total : ℕ} {f : K → Option V} (h : HashTable K V)
        → Models total f h
        → h.rehashing_idx ≡ none
        → Returns (set_main value_of used h k v) (λ r. Written total f k v h r.1)
    unfolding set_main
    set_main-Written {total} {f} h m e =
        let (pos, t) = m.resting e in
        let u = put-Holds h.table pos t in
        let more = added-absent h.table t in
        let r = put_chain k v (bucket h.table (home k h.size)) in
        (
          (
            increase_memory value_of used k v,
            record h {
              table = set h.table (home k h.size) r.0;
              count = if r.1 then h.count + 1 else h.count;
            },
          ),
          rw (
            hash-home k h.size pos,
            at-get_or h.table (home k h.size) [] (omega (arith, home-lt k h.size pos, t.width)),
          ),
          record { models = Models-resting e pos (rw more at u); counted = ground (arith, more) },
        )

    put-IsMoving :
        {total idx : ℕ} {f : K → Option V} (h : HashTable K V) (n : ℕ)
        → IsMoving total f idx h
        → view h.size h.table k ≡ none
        → IsMoving (total + absent (f k)) (update f k (some v)) idx (record h {
          rehashing_tbl =
              set h.rehashing_tbl
                (home k h.rehashing_size)
                (put_chain k v (bucket h.rehashing_tbl (home k h.rehashing_size))).0;
          count = n;
        })
    unfolding or_else
    put-IsMoving {total} {idx} {f} h n m fresh =
        let pos : 0 < h.rehashing_size = omega (arith, m.pos, m.doubled) in
        let old : Holds h.rehashing_size (entries h.rehashing_tbl)
            (view h.rehashing_size h.rehashing_tbl) h.rehashing_tbl =
          record { width = m.new_width; size = refl; placed = m.new_placed; reads = λ q. refl } in
        let u = put-Holds h.rehashing_tbl pos old in
        let more = added-absent h.rehashing_tbl old in
        let same : absent (f k) ≡ absent (view h.rehashing_size h.rehashing_tbl k) =
          ground (arith, m.reads k) in
        record {
          pos = m.pos;
          within = m.within;
          width = m.width;
          placed = m.placed;
          doubled = m.doubled;
          new_width = u.width;
          new_placed = u.placed;
          total_size = omega (arith, u.size, m.total_size, more, same);
          moved = m.moved;
          apart = λ q. ground (arith, u.reads q, m.apart q, key.equal_sound k q);
          reads = λ q. ground (arith, u.reads q, m.reads q, key.equal_sound k q);
        }

    set_new-Written :
        {total idx : ℕ} {f : K → Option V} (h : HashTable K V)
        → Models total f h
        → h.rehashing_idx ≡ some idx
        → view h.size h.table k ≡ none
        → Returns (set_new value_of used h k v) (λ r. Written total f k v h r.1)
    unfolding set_new or_else
    set_new-Written {total} {idx} {f} h m e fresh =
        let u = m.moving idx e in
        let pos : 0 < h.rehashing_size = omega (arith, u.1.pos, u.1.doubled) in
        let n = h.rehashing_size in
        let r = put_chain k v (bucket h.rehashing_tbl (home k n)) in
        let more = added-absent {n = n} h.rehashing_tbl (record {
          width = u.1.new_width;
          size = refl;
          placed = u.1.new_placed;
          reads = λ q. refl;
        }) in
        let same : absent (f k) ≡ absent (view n h.rehashing_tbl k) = ground (arith, u.1.reads k) in
        (
          (
            if r.1 then increase_memory value_of used k v else used,
            record h {
              rehashing_tbl = set h.rehashing_tbl (home k n) r.0;
              count = if r.1 then h.count + 1 else h.count;
            },
          ),
          rw (
            hash-home k n pos,
            at-get_or h.rehashing_tbl (home k n) [] (omega (arith, home-lt k n pos, u.1.new_width)),
          ),
          record {
            models = record {
              resting = λ p. absurd (cc);
              moving = λ i p.
                  let first : idx ≡ i = ground arith in
                  rw (← first) (u.0, put-IsMoving h _ u.1 fresh);
            };
            counted = ground (arith, more, same);
          },
        )

    store-Written :
        {total : ℕ} {f : K → Option V} (h : HashTable K V)
        → Models total f h
        → IsFresh h k
        → Returns (store value_of used h k v) (λ r. Written total f k v h r.1)
    unfolding store
    store-Written {total} {f} h m fresh = elim (Option-cases h.rehashing_idx) [
      | inl e ↦ let (r, run, w) = set_main-Written h m e in (r, rw (e, store) run, w)
      | inr (idx, e) ↦
          let lacks : view h.size h.table k ≡ none = elim fresh [
            | inl p ↦ absurd (cc)
            | inr p ↦ p
          ] in
          let (r, run, w) = set_new-Written h m e lacks in (r, rw (e, store) run, w)
    ]

    set_key_run :
        (h h' h'' : HashTable K V) (used' : ℕ)
        → step_if_rehashing h ≡ ok h'
        → store value_of used h' k v ≡ ok (used', h'')
        → set_key value_of used h k v ≡ ok (used', check_load h'')
    unfolding set_key
    set_key_run h h' h'' used' run run' = rw (run, run')

    -- `Set` on a hash table that stands for a map, resting or in the middle of a rehashing, does
    -- not fail and yields a table that stands for the map updated at the key, provided that the
    -- key does not wait in the part of the old table that has not moved; the counter grows by one
    -- exactly if the key is new.
    pub set_key-Written :
        {total : ℕ} {f : K → Option V} (h : HashTable K V)
        → Models total f h
        → IsFresh h k
        → Returns (set_key value_of used h k v) (λ r. Written total f k v h r.1)
    set_key-Written h m fresh =
        let (h', run, (m', same_count, still)) = step_if_rehashing-Models h m in
        let (r, run', w) = store-Written h' m' (still k fresh) in
        (
          (r.0, check_load r.1),
          set_key_run h h' r.1 r.0 run run',
          record {
            models = check_load-Models r.1 w.models;
            counted = omega (arith, check_load-count r.1, w.counted, same_count);
          },
        )
