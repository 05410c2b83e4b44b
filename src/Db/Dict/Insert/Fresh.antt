-- ===== src/Db/Dict/Insert/Fresh.antt =====
-- db/dict.go, `AddRaw`: what it does for a key that the table lacks.
use go_mock_redis.Base.{
  ℕ, ◌+◌, ◌<◌, ◌≡◌, refl, ◌∙◌, Bool, false, not, List, [], ◌∷◌, ◌++◌, arith, ◌==◌, if◌then◌else◌,
  Option, none, some, length, length-append, set, get_or-set_self, ap, ok, ◌>>=◌, Returns,
}
use go_mock_redis.Db.Memory.{increase_used_memory}
use go_mock_redis.Db.Hash.{Key}
use go_mock_redis.Db.Dict.{Chain, HashTable, find, step_if_rehashing, check_load}
use go_mock_redis.Db.Dict.Chains.{to_nat, count, count-unfound}
use go_mock_redis.Db.Dict.Insert.{Slot, position_of, insert_main, insert_raw, add_raw}
use go_mock_redis.Db.Dict.Insert.Slots.{position_of-eq-none}
use go_mock_redis.Db.Dict.Insert.Pointers.{PointsTo, main, new}
use go_mock_redis.Db.Dict.Buckets.{
  home, home-lt, hash-home, at-get_or, bucket, view, Holds, set-Holds,
}
use go_mock_redis.Db.Dict.Steps.{Models}
use go_mock_redis.Db.Dict.Tables.{check_load-Models, check_load-count}
use go_mock_redis.Db.Dict.Write.{update, Models-resting}

module _ {ℓ} {K V : Type ℓ} ⦃key : Key K⦄ (k : K) where
  find-append_new :
      (v : V) (c : Chain K V)
      → find k c ≡ none
      → (q : K) → find q (c ++ (k, v) ∷ []) ≡ (if key.equal k q then some v else find q c)
  unfolding find
  find-append_new v [] absent q = refl
  find-append_new v (e ∷ c) absent q =
      ground (arith, find-append_new v c (ground arith) q, key.equal_sound k q)

  count-append_new :
      (v : V) (c : Chain K V) (q : K)
      → count q (c ++ (k, v) ∷ []) ≡ count q c + to_nat (key.equal k q)
  unfolding count
  count-append_new v [] q = omega arith
  count-append_new v (e ∷ c) q = omega (arith, count-append_new v c q)

  position_of-append_new :
      (v : V) (c : Chain K V) → find k c ≡ none → position_of k (c ++ (k, v) ∷ []) ≡ some (length c)
  unfolding position_of find
  position_of-append_new v [] absent = ground (arith, key.equal_refl k)
  position_of-append_new v (e ∷ c) absent =
      ground (arith, position_of-append_new v c (ground arith))

  append-Holds :
      {n total : ℕ} {f : K → Option V} (v : V) (t : List (Chain K V))
      → 0 < n
      → Holds n total f t
      → f k ≡ none
      → Holds n
          (total + 1)
          (update f k (some v))
          (set t (home k n) (bucket t (home k n) ++ (k, v) ∷ []))
  unfolding view
  append-Holds {n} {total} v t pos holds absent =
      let c = bucket t (home k n) in
      let lacks : find k c ≡ none = holds.reads k ∙ absent in
      let u =
        set-Holds t pos holds.width holds.placed k (some v) (c ++ (k, v) ∷ []) (total + 1)
          (omega (arith, length-append c ((k, v) ∷ []), holds.size))
          (λ q. ground (arith, count-append_new v c q, count-unfound k c, key.equal_sound k q))
          (λ q. find-append_new v c lacks q) in
      record {
        width = u.width;
        size = u.size;
        placed = u.placed;
        reads = λ q. ground (arith, u.reads q, holds.reads q);
      }

  -- The result of `AddRaw` for a new key of a table at rest.
  pub record Added (total : ℕ) (f : K → Option V) (zero_value : V) (h : HashTable K V)
      (r : ℕ × HashTable K V × Slot × Bool) : Type ℓ where
    pub models : Models (total + 1) (update f k (some zero_value)) r.1
    pub counted : r.1.count ≡ h.count + 1
    pub points : PointsTo k r.1 r.2
    -- The flag is false exactly when the key's bucket was empty.
    pub existing : r.3 ≡ not (length (bucket h.table (home k h.size)) == 0)

  insert_main-Added :
      {total : ℕ} {f : K → Option V} (zero_value : V) (used : ℕ) (h : HashTable K V)
      → Models total f h
      → h.rehashing_idx ≡ none
      → f k ≡ none
      → Returns
          (insert_main zero_value used h k)
          (λ r. Added total f zero_value h r × (r.1.rehashing_idx ≡ none))
  unfolding insert_main view
  insert_main-Added zero_value used h m e absent =
      let (pos, t) = m.resting e in
      let c = bucket h.table (home k h.size) in
      let lacks : find k c ≡ none = t.reads k ∙ absent in
      let inside : home k h.size < length h.table = omega (arith, home-lt k h.size pos, t.width) in
      (
        (
          increase_used_memory used (key.value k),
          record h {
            table = set h.table (home k h.size) (c ++ (k, zero_value) ∷ []);
            count = h.count + 1;
          },
          record { rehashing = false; index = home k h.size; position = length c },
          not (length c == 0),
        ),
        rw (
          hash-home k h.size pos,
          at-get_or h.table (home k h.size) [] inside,
          ◌>>=◌,
          position_of-eq-none k c lacks,
        ),
        (
          record {
            models = Models-resting e pos (append-Holds zero_value h.table pos t absent);
            counted = refl;
            points = main refl refl (
                ap (position_of k) (get_or-set_self h.table (home k h.size) _ [] inside)
                ∙ position_of-append_new zero_value c lacks);
            existing = refl;
          },
          e,
        ),
      )

  check_load-main :
      (h : HashTable K V) (s : Slot)
      → h.rehashing_idx ≡ none
      → PointsTo k h s
      → PointsTo k (check_load h) s
  unfolding check_load
  check_load-main h s e (new idx r side place p) = absurd (cc)
  check_load-main h s e (main side place p) =
      let same_size : (check_load h).size ≡ h.size = ground arith in
      let same_table : (check_load h).table ≡ h.table = ground arith in
      main side (rw same_size place) (rw (same_size, same_table) p)

  add_raw_run :
      (zero_value : V) (used : ℕ) (h : HashTable K V) (r : ℕ × HashTable K V × Slot × Bool)
      → h.rehashing_idx ≡ none
      → insert_main zero_value used h k ≡ ok r
      → add_raw zero_value used h k ≡ ok (r.0, check_load r.1, r.2, r.3)
  unfolding add_raw
  add_raw_run zero_value used h r e run = rw (e, add_raw, step_if_rehashing, e, insert_raw, run)

  -- `AddRaw` of an absent key on a hash table that is not rehashing does not fail, adds an entry
  -- with the zero value, returns a pointer to it, and says that the key was there exactly if its
  -- bucket was not empty.
  pub add_raw-Added :
      {total : ℕ} {f : K → Option V} (zero_value : V) (used : ℕ) (h : HashTable K V)
      → Models total f h
      → h.rehashing_idx ≡ none
      → f k ≡ none
      → Returns (add_raw zero_value used h k) (Added total f zero_value h)
  unfolding add_raw
  add_raw-Added zero_value used h m e absent =
      let (r, run, (a, still)) = insert_main-Added zero_value used h m e absent in
      (
        (r.0, check_load r.1, r.2, r.3),
        add_raw_run zero_value used h r e run,
        record {
          models = check_load-Models r.1 a.models;
          counted = omega (arith, check_load-count r.1, a.counted);
          points = check_load-main r.1 r.2 still a.points;
          existing = a.existing;
        },
      )
