-- ===== src/Db/Dict/Rehash.antt =====
-- db/dict.go, `rehashStep`: moving buckets from the old table to the new one.
use mathlib.Core.Option.{or_else}
use go_mock_redis.Base.{
  ℕ, suc, ◌+◌, ◌*◌, ◌≤◌, ◌<◌, ◌≡◌, ◌⊎◌, inl, inr, refl, List, [], ◌∷◌, arith, ◌==◌, if◌then◌else◌,
  Option, none, some, length, set, length-set, get_or-set, Returns, Bool-cases, ==_iff,
  ne_of_==_false, ◌∙◌,
}
use go_mock_redis.Db.Hash.{Key}
use go_mock_redis.Db.Dict.{Chain, HashTable, find, move_chain}
use go_mock_redis.Db.Dict.Chains.{count, find-uncounted, count-unfound}
use go_mock_redis.Db.Dict.Buckets.{
  home, hash-home, home-lt, at-get_or, entries, entries-set, bucket, IsPlaced, view, Holds,
  set-Holds,
}

module _ {ℓ} {K V : Type ℓ} ⦃key : Key K⦄ where
  -- An entry whose key the new table lacks is put at the head of its chain.
  push-Holds :
      (k : K) (v : V) {n total : ℕ} {f : K → Option V} (new : List (Chain K V))
      → 0 < n
      → Holds n total f new
      → f k ≡ none
      → Holds n
          (total + 1)
          (λ q. if key.equal k q then some v else view n new q)
          (set new (home k n) ((k, v) ∷ bucket new (home k n)))
  unfolding view count find
  push-Holds k v {n} new pos t absent =
      let c = bucket new (home k n) in
      set-Holds new pos t.width t.placed k (some v) ((k, v) ∷ c) _ (omega (arith, t.size))
        (λ q. ground (arith, t.reads k, count-unfound k c, key.equal_sound k q)) (λ q. refl)

  move_chain-Holds :
      (es : Chain K V) {n total : ℕ} {f : K → Option V} (new : List (Chain K V))
      → 0 < n
      → Holds n total f new
      → ((q : K) → count q es ≤ 1)
      → ((q : K) → 0 < count q es → f q ≡ none)
      → Returns (move_chain es new n) (Holds n (total + length es) (λ q. or_else (find q es) (f q)))
  unfolding move_chain count find or_else
  move_chain-Holds [] new pos t once apart = (
    new,
    refl,
    record { width = t.width; size = omega (arith, t.size); placed = t.placed; reads = t.reads },
  )
  move_chain-Holds ((k, v) ∷ es) {n} new pos t once apart =
      let step = push-Holds k v new pos t (apart k (ground (arith, key.equal_refl k))) in
      let (result, run, u) =
        move_chain-Holds es _ pos step (λ q. omega (arith, once q))
          (λ q h. ground (arith, t.reads q, once q, apart q)) in
      (
        result,
        rw
            (
              hash-home k n pos,
              at-get_or new (home k n) [] (omega (arith, home-lt k n pos, t.width)),
            )
            run,
        record {
          width = u.width;
          size = omega (arith, u.size);
          placed = u.placed;
          reads = λ q. ground (arith, u.reads q, t.reads q, once q, find-uncounted q es);
        },
      )

  -- The state between two buckets: those below `idx` have moved, no key is in both tables, and
  -- together the tables hold `total` entries and read as `f`.
  pub record IsMoving (total : ℕ) (f : K → Option V) (idx : ℕ) (h : HashTable K V) : Type ℓ where
    pub pos : 0 < h.size
    pub within : idx ≤ h.size
    pub width : length h.table ≡ h.size
    pub placed : IsPlaced h.size h.table
    pub doubled : h.rehashing_size ≡ h.size * 2
    pub new_width : length h.rehashing_tbl ≡ h.rehashing_size
    pub new_placed : IsPlaced h.rehashing_size h.rehashing_tbl
    pub total_size : entries h.table + entries h.rehashing_tbl ≡ total
    pub moved : (i : ℕ) → i < idx → bucket h.table i ≡ []
    pub apart :
        (q : K) → (view h.rehashing_size h.rehashing_tbl q ≡ none) ⊎ (view h.size h.table q ≡ none)
    pub reads :
        (q : K) → or_else (view h.rehashing_size h.rehashing_tbl q) (view h.size h.table q) ≡ f q

  -- A bucket is emptied.
  module _ (n : ℕ) (t : List (Chain K V)) (idx : ℕ) (inside : idx < length t) where
    pub view-empty :
        (q : K) → view n (set t idx []) q ≡ (if idx == home q n then none else view n t q)
    unfolding view find
    view-empty q = rw (get_or-set t idx (home q n) [] [] inside) (ground arith)

    pub empty-IsPlaced : IsPlaced n t → IsPlaced n (set t idx [])
    unfolding count
    empty-IsPlaced placed q i = rw (get_or-set t idx i [] [] inside) (ground (arith, placed q i))

  module _ {total : ℕ} {f : K → Option V} (idx : ℕ) (h : HashTable K V) (m : IsMoving total f idx h)
      (below : idx < h.size) where
    -- What the bucket holds is what the old table holds under the keys that belong there.
    bucket-view :
        (q : K)
        → find q (bucket h.table idx)
          ≡ (if idx == home q h.size then view h.size h.table q else none)
    unfolding view
    bucket-view q = elim (Bool-cases (idx == home q h.size)) [
      | inl e ↦ rw (e, (==_iff _ _).0 e)
      | inr e ↦
          rw e (find-uncounted q (bucket h.table idx) ((m.placed q idx).1 (ne_of_==_false _ _ e)))
    ]

    home_of_count : (q : K) → 0 < count q (bucket h.table idx) → idx ≡ home q h.size
    home_of_count q some_entry = ground (arith, m.placed q idx)

    new_lacks :
        (q : K) → 0 < count q (bucket h.table idx) → view h.rehashing_size h.rehashing_tbl q ≡ none
    new_lacks q some_entry =
        let here = home_of_count q some_entry in
        elim (m.apart q) [
          | inl p ↦ p
          | inr p ↦
              let none_here : count q (bucket h.table idx) ≡ 0 =
                count-unfound q (bucket h.table idx)
                  (bucket-view q ∙ rw ((==_iff idx _).1 here) p) in
              absurd (omega arith)
        ]

    pub bucket-Holds : Returns (move_chain (bucket h.table idx) h.rehashing_tbl h.rehashing_size) (
        Holds h.rehashing_size
          (entries h.rehashing_tbl + length (bucket h.table idx))
          (λ q. or_else (find q (bucket h.table idx)) (view h.rehashing_size h.rehashing_tbl q)))
    unfolding view
    bucket-Holds =
        move_chain-Holds (bucket h.table idx) h.rehashing_tbl (omega (arith, m.doubled, m.pos))
          (record { width = m.new_width; size = refl; placed = m.new_placed; reads = λ q. refl })
          (λ q. (m.placed q idx).0) new_lacks

    pub bucket-IsMoving :
        {new : List (Chain K V)}
        → Holds h.rehashing_size
            (entries h.rehashing_tbl + length (bucket h.table idx))
            (λ q. or_else (find q (bucket h.table idx)) (view h.rehashing_size h.rehashing_tbl q))
            new
        → IsMoving total f (suc idx) (record h { table = set h.table idx []; rehashing_tbl = new })
    unfolding or_else
    bucket-IsMoving {new} t =
        let inside : idx < length h.table = omega (arith, m.width) in
        record {
          pos = m.pos;
          within = below;
          width = rw length-set m.width;
          placed = empty-IsPlaced h.size h.table idx inside m.placed;
          doubled = m.doubled;
          new_width = t.width;
          new_placed = t.placed;
          total_size = omega (arith, entries-set h.table idx [] inside, t.size, m.total_size);
          moved = λ i lt. rw (get_or-set h.table idx i [] [] inside) (elim (Bool-cases (idx == i)) [
            | inl e ↦ rw e
            | inr e ↦ rw e (m.moved i (ground (arith, ne_of_==_false idx i)))
          ]);
          apart = λ q.
              ground (
                arith,
                view-empty h.size h.table idx inside q,
                t.reads q,
                bucket-view q,
                m.apart q,
              );
          reads = λ q. ground (
            arith,
            view-empty h.size h.table idx inside q,
            t.reads q,
            bucket-view q,
            m.apart q,
            m.reads q,
          );
        }
