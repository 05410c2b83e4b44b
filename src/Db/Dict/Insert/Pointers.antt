-- ===== src/Db/Dict/Insert/Pointers.antt =====
-- db/dict.go, `SetVal` and `GetEntry` on a table that stands for a map.
use mathlib.Core.Option.{or_else}
use go_mock_redis.Base.{
  ℕ, ◌<◌, ◌≡◌, ◌≢◌, refl, true, false, List, [], arith, ◌==◌, Option, none, some, length, set,
  get_or-set, Returns, Bool-cases, Option-cases, ==_iff, inl, inr,
}
use go_mock_redis.Db.Memory.{Value, increase_used_memory}
use go_mock_redis.Db.Hash.{Key}
use go_mock_redis.Db.Dict.{Chain, HashTable}
use go_mock_redis.Db.Dict.Insert.{Slot, write_at, chain_of, set_val, position_of}
use go_mock_redis.Db.Dict.Insert.Slots.{position_of-nil, position_of-eq-none, rewrite-Holds}
use go_mock_redis.Db.Dict.Buckets.{home, home-lt, at-get_or, entries, bucket, view, Holds}
use go_mock_redis.Db.Dict.Steps.{Models}
use go_mock_redis.Db.Dict.Write.{update}

module _ {ℓ} {K V : Type ℓ} ⦃key : Key K⦄ (k : K) where
  -- The slot is the entry of the key, in the main table or in the new one.
  pub data PointsTo (h : HashTable K V) (s : Slot) : Type 0 where
    main :
        s.rehashing ≡ false
        → s.index ≡ home k h.size
        → position_of k (bucket h.table (home k h.size)) ≡ some s.position
        → PointsTo h s
    new :
        (idx : ℕ)
        → h.rehashing_idx ≡ some idx
        → s.rehashing ≡ true
        → s.index ≡ home k h.rehashing_size
        → position_of k (bucket h.rehashing_tbl (home k h.rehashing_size)) ≡ some s.position
        → PointsTo h s

  pub record Rewritten (total : ℕ) (f : K → Option V) (v : V) (h h' : HashTable K V) : Type ℓ where
    pub models : Models total (update f k (some v)) h'
    pub same_count : h'.count ≡ h.count

  view-some :
      {n total : ℕ} {f : K → Option V} (t : List (Chain K V)) {p : ℕ}
      → Holds n total f t
      → position_of k (bucket t (home k n)) ≡ some p
      → view n t k ≢ none
  unfolding view
  view-some {n} t holds e absent =
      let missing = position_of-eq-none k (bucket t (home k n)) absent in cc

  pub size-pos :
      {total : ℕ} {f : K → Option V} (h : HashTable K V)
      → Models total f h
      → (0 < h.size) × (length h.table ≡ h.size)
  size-pos h m = elim (Option-cases h.rehashing_idx) [
    | inl e ↦ ((m.resting e).0, (m.resting e).1.width)
    | inr (idx, e) ↦ ((m.moving idx e).1.pos, (m.moving idx e).1.width)
  ]

  module _ (value_of : V → Value) (used : ℕ) (v : V) where
    main-Models :
        {total : ℕ} {f : K → Option V} (h : HashTable K V) {p : ℕ}
        → Models total f h
        → position_of k (bucket h.table (home k h.size)) ≡ some p
        → Models total (update f k (some v)) (record h {
          table = set h.table (home k h.size) (write_at (bucket h.table (home k h.size)) p v);
        })
    unfolding or_else
    main-Models {total} {f} h m e = record {
      resting = λ r. let (pos, t) = m.resting r in (pos, rewrite-Holds k v h.table pos t e);
      moving = λ idx r.
          let (below, u) = m.moving idx r in
          let old : Holds h.size (entries h.table) (view h.size h.table) h.table = record {
            width = u.width;
            size = refl;
            placed = u.placed;
            reads = λ q. refl;
          } in
          let t = rewrite-Holds k v h.table u.pos old e in
          let held = view-some h.table old e in
          let lacks : view h.rehashing_size h.rehashing_tbl k ≡ none = elim (u.apart k) [
            | inl p ↦ p
            | inr p ↦ absurd (held p)
          ] in
          let inside : home k h.size < length h.table =
            omega (arith, home-lt k h.size u.pos, u.width) in
          (
            below,
            record {
              pos = u.pos;
              within = u.within;
              width = t.width;
              placed = t.placed;
              doubled = u.doubled;
              new_width = u.new_width;
              new_placed = u.new_placed;
              total_size = omega (arith, t.size, u.total_size);
              moved = λ i lt.
                  rw (get_or-set h.table (home k h.size) i _ [] inside)
                    (elim (Bool-cases (home k h.size == i)) [
                      | inl here ↦
                          let gone : bucket h.table (home k h.size) ≡ [] =
                            rw ((==_iff _ _).0 here) (u.moved i lt) in
                          let missing = position_of-nil k (bucket h.table (home k h.size)) gone in
                          absurd (cc)
                      | inr away ↦ rw away (u.moved i lt)
                    ]);
              apart = λ q. ground (arith, t.reads q, u.apart q, key.equal_sound k q);
              reads = λ q. ground (arith, t.reads q, u.reads q, key.equal_sound k q);
            },
          );
    }

    new-Models :
        {total idx : ℕ} {f : K → Option V} (h : HashTable K V) {p : ℕ}
        → Models total f h
        → h.rehashing_idx ≡ some idx
        → position_of k (bucket h.rehashing_tbl (home k h.rehashing_size)) ≡ some p
        → Models total (update f k (some v)) (record h {
          rehashing_tbl =
              set h.rehashing_tbl
                (home k h.rehashing_size)
                (write_at (bucket h.rehashing_tbl (home k h.rehashing_size)) p v);
        })
    unfolding or_else
    new-Models {total} {idx} {f} h m r e =
        let (below, u) = m.moving idx r in
        let old : Holds h.rehashing_size (entries h.rehashing_tbl)
            (view h.rehashing_size h.rehashing_tbl) h.rehashing_tbl =
          record { width = u.new_width; size = refl; placed = u.new_placed; reads = λ q. refl } in
        let t = rewrite-Holds k v h.rehashing_tbl (omega (arith, u.pos, u.doubled)) old e in
        let held = view-some h.rehashing_tbl old e in
        let lacks : view h.size h.table k ≡ none = elim (u.apart k) [
          | inl p ↦ absurd (held p)
          | inr p ↦ p
        ] in
        record {
          resting = λ p. absurd (cc);
          moving = λ i p.
              let same : idx ≡ i = ground arith in
              rw (← same) (
                below,
                record {
                  pos = u.pos;
                  within = u.within;
                  width = u.width;
                  placed = u.placed;
                  doubled = u.doubled;
                  new_width = t.width;
                  new_placed = t.placed;
                  total_size = omega (arith, t.size, u.total_size);
                  moved = u.moved;
                  apart = λ q. ground (arith, t.reads q, u.apart q, key.equal_sound k q);
                  reads = λ q. ground (arith, t.reads q, u.reads q, key.equal_sound k q);
                },
              );
        }

    -- `SetVal` through a pointer to the entry of a key updates the map at that key.
    pub set_val-Rewritten :
        {total : ℕ} {f : K → Option V} (h : HashTable K V) (s : Slot)
        → Models total f h
        → PointsTo h s
        → Returns (set_val value_of used h (some s) v) (λ r. Rewritten total f v h r.1)
    unfolding set_val chain_of
    set_val-Rewritten h s m (main side place e) =
        let (pos, width) = size-pos h m in
        let inside : home k h.size < length h.table = omega (arith, home-lt k h.size pos) in
        (
          (
            increase_used_memory used (value_of v),
            record h {
              table =
                  set h.table (home k h.size)
                    (write_at (bucket h.table (home k h.size)) s.position v);
            },
          ),
          rw (side, place, at-get_or h.table (home k h.size) [] inside),
          record { models = main-Models h m e; same_count = refl },
        )
    set_val-Rewritten h s m (new idx r side place e) =
        let u = (m.moving idx r).1 in
        let n = h.rehashing_size in
        let inside : home k n < length h.rehashing_tbl =
          omega (arith, home-lt k n (omega (arith, u.pos, u.doubled)), u.new_width) in
        (
          (
            increase_used_memory used (value_of v),
            record h {
              rehashing_tbl =
                  set h.rehashing_tbl (home k n)
                    (write_at (bucket h.rehashing_tbl (home k n)) s.position v);
            },
          ),
          rw (side, place, at-get_or h.rehashing_tbl (home k n) [] inside),
          record { models = new-Models h m r e; same_count = refl },
        )
