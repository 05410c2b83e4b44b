-- ===== src/Db/Dict/Tables.antt =====
-- db/dict.go: a new table, the start of a rehashing, and `Get`.
use mathlib.Core.Option.{or_else}
use go_mock_redis.Base.{
  ℕ, ◌*◌, ◌<◌, ◌≡◌, refl, List, [], arith, Option, none, some, length, replicate, ok, Bool-cases,
  Option-cases, inl, inr,
}
use go_mock_redis.Db.Hash.{Key}
use go_mock_redis.Db.Dict.{
  Chain, HashTable, start_rehashing, over_load, check_load, get_from_table, get, new_hash_table,
}
use go_mock_redis.Db.Dict.Buckets.{
  home, home-lt, hash-home, at-get_or, view, Holds, replicate-Holds,
}
use go_mock_redis.Db.Dict.Rehash.{IsMoving}
use go_mock_redis.Db.Dict.Steps.{Models}

module _ {ℓ} {K V : Type ℓ} ⦃key : Key K⦄ where
  start-IsMoving :
      {total : ℕ} {f : K → Option V} (h : HashTable K V)
      → 0 < h.size
      → Holds h.size total f h.table
      → (i : Option ℕ)
      → IsMoving total f 0 (record h {
        rehashing_size = h.size * 2;
        rehashing_tbl = replicate (h.size * 2) [];
        rehashing_idx = i;
      })
  unfolding or_else
  start-IsMoving h pos t i =
      let new = replicate-Holds (h.size * 2) in
      record {
        pos = pos;
        within = omega arith;
        width = t.width;
        placed = t.placed;
        doubled = refl;
        new_width = new.width;
        new_placed = new.placed;
        total_size = omega (arith, t.size, new.size);
        moved = λ j lt. absurd (omega arith);
        apart = λ q. inl (new.reads q);
        reads = λ q. rw (new.reads q) (t.reads q);
      }

  start_rehashing-Models :
      {total : ℕ} {f : K → Option V} (h : HashTable K V)
      → Models total f h
      → Models total f (start_rehashing h)
  unfolding start_rehashing
  start_rehashing-Models h m = elim (Option-cases h.rehashing_idx) [
    | inr (idx, e) ↦ let same : start_rehashing h ≡ h = ground arith in rw same m
    | inl e ↦
        let (pos, t) = m.resting e in
        let started : start_rehashing h ≡ record h {
          rehashing_size = h.size * 2;
          rehashing_tbl = replicate (h.size * 2) [];
          rehashing_idx = some 0;
        } =
          ground arith in
        rw started (record {
          resting = λ p. absurd (cc);
          moving = λ i p.
              let first : 0 ≡ i = ground arith in
              rw (← first) (pos, start-IsMoving h pos t (some 0));
        })
  ]

  -- Starting a rehashing changes nothing that can be read.
  pub check_load-Models :
      {total : ℕ} {f : K → Option V} (h : HashTable K V)
      → Models total f h
      → Models total f (check_load h)
  unfolding check_load
  check_load-Models h m = elim (Bool-cases (over_load h)) [
    | inl e ↦ rw (e, check_load) (start_rehashing-Models h m)
    | inr e ↦ rw (e, check_load) m
  ]

  pub check_load-count : (h : HashTable K V) → (check_load h).count ≡ h.count
  unfolding check_load
  check_load-count h = ground arith

  pub new_hash_table-Models :
      (n : ℕ) → 0 < n → Models 0 (λ _. none) (new_hash_table {K = K} {V = V} n)
  unfolding new_hash_table
  new_hash_table-Models n pos = record {
    resting = λ _. (pos, replicate-Holds n);
    moving = λ i p. absurd (cc);
  }

  pub get_from_table-view :
      {n : ℕ} (q : K) (t : List (Chain K V))
      → 0 < n
      → length t ≡ n
      → get_from_table q t n ≡ ok (view n t q)
  unfolding get_from_table view
  get_from_table-view {n} q t pos width =
      rw (hash-home q n pos, at-get_or t (home q n) [] (omega (arith, home-lt q n pos)))

  -- `Get` on a hash table that stands for a map, resting or in the middle of a rehashing, does not
  -- fail and returns what the map holds for the key.
  pub get-Models :
      {total : ℕ} {f : K → Option V} (h : HashTable K V) (q : K)
      → Models total f h
      → get h q ≡ ok (f q)
  unfolding get or_else
  get-Models {total} {f} h q m = elim (Option-cases h.rehashing_idx) [
    | inl e ↦
        let (pos, t) = m.resting e in
        rw (e, get, get_from_table-view q h.table pos t.width, t.reads q)
    | inr (idx, e) ↦
        let u = (m.moving idx e).1 in
        rw
          (
            e,
            get,
            get_from_table-view q h.rehashing_tbl (omega (arith, u.pos, u.doubled)) u.new_width,
          )
          (ground (arith, u.reads q, get_from_table-view q h.table u.pos u.width))
  ]
