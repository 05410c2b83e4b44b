-- ===== src/Db/Dict/Steps.antt =====
-- db/dict.go: the loop of `rehashStep`, the step as a whole, and what a table stands for.
use Prim.Native.Nat.{min}
use mathlib.Core.Option.{or_else}
use go_mock_redis.Base.{
  ℕ, zero, suc, ◌+◌, ◌≤◌, ◌<◌, ◌≡◌, ◌≢◌, ◌⊎◌, refl, ◌∙◌, List, [], ◌∷◌, arith, ◌==◌, ltb, Option,
  none, some, length, set, Returns, Bool-cases, Option-cases, ==_iff, ltb→lt, inl, inr,
}
use go_mock_redis.Db.Hash.{Key}
use go_mock_redis.Db.Dict.{
  Chain, HashTable, rehashing_buckets, find, move_buckets, finish_rehashing, rehash_step,
  step_if_rehashing,
}
use go_mock_redis.Db.Dict.Buckets.{home, home-lt, at-get_or, entries, bucket, view, Holds}
use go_mock_redis.Db.Dict.Rehash.{IsMoving, view-empty, bucket-Holds, bucket-IsMoving}

module _ {ℓ} {K V : Type ℓ} ⦃key : Key K⦄ where
  pub record Moved (total : ℕ) (f : K → Option V) (idx : ℕ) (h h' : HashTable K V) : Type ℓ where
    pub index : h'.rehashing_idx ≡ some idx
    pub moving : IsMoving total f idx h'
    pub size : h'.size ≡ h.size
    pub same_count : h'.count ≡ h.count
    -- A key that the old table lacks is not put there.
    pub shrinks : (q : K) → view h.size h.table q ≡ none → view h'.size h'.table q ≡ none

  IsMoving-index :
      {total : ℕ} {f : K → Option V} {idx : ℕ} {h : HashTable K V} (i : Option ℕ)
      → IsMoving total f idx h
      → IsMoving total f idx (record h { rehashing_idx = i })
  IsMoving-index i m = record {
    pos = m.pos;
    within = m.within;
    width = m.width;
    placed = m.placed;
    doubled = m.doubled;
    new_width = m.new_width;
    new_placed = m.new_placed;
    total_size = m.total_size;
    moved = m.moved;
    apart = m.apart;
    reads = m.reads;
  }

  Moved-stop :
      {total : ℕ} {f : K → Option V} {idx stop : ℕ} (h : HashTable K V)
      → IsMoving total f idx h
      → idx ≡ stop
      → Moved total f stop h (record h { rehashing_idx = some idx })
  Moved-stop h m e = rw (← e) (record {
    index = refl;
    moving = IsMoving-index _ m;
    size = refl;
    same_count = refl;
    shrinks = λ q absent. absent;
  })

  empty-none :
      (idx : ℕ) (h : HashTable K V)
      → idx < length h.table
      → (q : K) → view h.size h.table q ≡ none
      → view h.size (set h.table idx []) q ≡ none
  empty-none idx h inside q absent =
      rw (view-empty h.size h.table idx inside q)
        (elim (Bool-cases (idx == home q h.size)) [ inl e ↦ rw e | inr e ↦ rw e absent ])

  -- The loop does not fail, and stops after its rounds or at the end of the old table.
  move_buckets-Moved :
      {total : ℕ} {f : K → Option V} (rounds idx : ℕ) (h : HashTable K V)
      → IsMoving total f idx h
      → Returns (move_buckets rounds idx h) (Moved total f (min h.size (idx + rounds)) h)
  unfolding move_buckets
  move_buckets-Moved zero idx h m = (_, refl, Moved-stop h m (omega (arith, m.within)))
  move_buckets-Moved (suc rounds) idx h m = elim (Bool-cases (ltb idx h.size)) [
    | inl more ↦
        let below = ltb→lt idx h.size more in
        let (new, run, t) = bucket-Holds idx h m below in
        let (h', run', u) =
          move_buckets-Moved rounds (suc idx) _ (bucket-IsMoving idx h m below t) in
        let e : min h.size (idx + suc rounds) ≡ min h.size (suc idx + rounds) = omega arith in
        (
          h',
          rw (more, move_buckets, at-get_or h.table idx [] (omega (arith, m.width)), run) run',
          rw e (record {
            index = u.index;
            moving = u.moving;
            size = u.size;
            same_count = u.same_count;
            shrinks = λ q absent. u.shrinks q (empty-none idx h (omega (arith, m.width)) q absent);
          }),
        )
    | inr done ↦
        let at_end : h.size ≤ idx = ground arith in
        (_, rw (done, move_buckets), Moved-stop h m (omega (arith, m.within)))
  ]

  -- What a table means: at rest, or between two steps of a rehashing.
  pub record Models (total : ℕ) (f : K → Option V) (h : HashTable K V) : Type ℓ where
    pub resting : h.rehashing_idx ≡ none → (0 < h.size) × Holds h.size total f h.table
    pub moving : (idx : ℕ) → h.rehashing_idx ≡ some idx → (idx < h.size) × IsMoving total f idx h

  entries-empty :
      (t : List (Chain K V)) → ((i : ℕ) → i < length t → bucket t i ≡ []) → entries t ≡ 0
  entries-empty [] none_left = refl
  entries-empty (c ∷ t) none_left =
      let first : c ≡ [] = none_left 0 (omega arith) in
      rw first (omega (arith, entries-empty t (λ i lt. none_left (suc i) (omega arith))))

  -- When the last bucket has moved the new table holds everything.
  moved-Holds :
      {total : ℕ} {f : K → Option V} (h : HashTable K V)
      → IsMoving total f h.size h
      → Holds h.rehashing_size total f h.rehashing_tbl
  unfolding or_else view find
  moved-Holds h m = record {
    width = m.new_width;
    size =
        omega
          (arith, m.total_size, entries-empty h.table (λ i lt. m.moved i (omega (arith, m.width))));
    placed = m.new_placed;
    reads = λ q.
        let empty : bucket h.table (home q h.size) ≡ [] =
          m.moved (home q h.size) (home-lt q h.size m.pos) in
        ground (arith, m.reads q);
  }

  finish-Models :
      {total : ℕ} {f : K → Option V} {idx : ℕ} (h : HashTable K V)
      → h.rehashing_idx ≡ some idx
      → IsMoving total f idx h
      → Models total f (finish_rehashing h)
  unfolding finish_rehashing
  finish-Models {total} {f} {idx} h e m = elim (Bool-cases (idx == h.size)) [
    | inl done ↦
        let last : idx ≡ h.size = (==_iff _ _).0 done in
        let over = moved-Holds h (rw last at m) in
        rw (e, finish_rehashing, done)
          (record {
            resting = λ _. (omega (arith, m.pos, m.doubled), over);
            moving = λ i p. absurd (cc);
          })
    | inr more ↦
        rw (e, finish_rehashing, more)
          (record {
            resting = λ p. absurd (cc);
            moving = λ i p.
                let same : idx ≡ i = ground arith in
                let early : idx ≢ h.size = λ q. absurd (ground arith) in
                (omega (arith, m.within), rw same at m);
          })
  ]

  finish-count : (h : HashTable K V) → (finish_rehashing h).count ≡ h.count
  unfolding finish_rehashing
  finish-count h = ground arith

  finish-progress :
      {idx : ℕ} (h : HashTable K V)
      → h.rehashing_idx ≡ some idx
      → ((finish_rehashing h).rehashing_idx ≡ none)
        ⊎ (((finish_rehashing h).rehashing_idx ≡ some idx)
            × ((finish_rehashing h).size ≡ h.size)
            × (idx ≢ h.size))
  unfolding finish_rehashing
  finish-progress {idx} h e = ground arith

  finish-shrinks :
      {idx : ℕ} (h : HashTable K V)
      → h.rehashing_idx ≡ some idx
      → (q : K) → view h.size h.table q ≡ none
      → ((finish_rehashing h).rehashing_idx ≡ none)
        ⊎ (view (finish_rehashing h).size (finish_rehashing h).table q ≡ none)
  unfolding finish_rehashing
  finish-shrinks {idx} h e q absent = elim (Bool-cases (idx == h.size)) [
    | inl done ↦ inl (ground arith)
    | inr more ↦ let same : finish_rehashing h ≡ h = ground arith in inr (rw same absent)
  ]

  pub record Stepped (total : ℕ) (f : K → Option V) (idx : ℕ) (h h' : HashTable K V) : Type ℓ where
    pub models : Models total f h'
    pub same_count : h'.count ≡ h.count
    pub progress :
        (h'.rehashing_idx ≡ none)
        ⊎ ((h'.rehashing_idx ≡ some (idx + rehashing_buckets)) × (h'.size ≡ h.size))
    pub shrinks :
        (q : K)
        → view h.size h.table q ≡ none
        → (h'.rehashing_idx ≡ none) ⊎ (view h'.size h'.table q ≡ none)

  -- A step of a rehashing does not fail, keeps the map that the hash table stands for and its
  -- counter, and either ends the rehashing or has moved ten more buckets.
  pub rehash_step-Stepped :
      {total : ℕ} {f : K → Option V} (idx : ℕ) (h : HashTable K V)
      → Models total f h
      → h.rehashing_idx ≡ some idx
      → Returns (rehash_step h) (Stepped total f idx h)
  unfolding rehash_step
  rehash_step-Stepped {total} {f} idx h m e =
      let (h', run, u) = move_buckets-Moved rehashing_buckets idx h (m.moving idx e).1 in
      (
        finish_rehashing h',
        rw (e, rehash_step, run),
        record {
          models = finish-Models h' u.index u.moving;
          same_count = finish-count h' ∙ u.same_count;
          progress = elim (finish-progress h' u.index) [
            | inl over ↦ inl over
            | inr (index, size, early) ↦
                let at_ten : min h.size (idx + rehashing_buckets) ≡ idx + rehashing_buckets =
                  omega (arith, u.size) in
                inr (rw at_ten at index, size ∙ u.size)
          ];
          shrinks = λ q absent. finish-shrinks h' u.index q (u.shrinks q absent);
        },
      )

  pub step_if_rehashing-Models :
      {total : ℕ} {f : K → Option V} (h : HashTable K V)
      → Models total f h
      → Returns (step_if_rehashing h) (λ h'.
        Models total f h'
        × (h'.count ≡ h.count)
        × ((k : K)
            → (h.rehashing_idx ≡ none) ⊎ (view h.size h.table k ≡ none)
            → (h'.rehashing_idx ≡ none) ⊎ (view h'.size h'.table k ≡ none)))
  unfolding step_if_rehashing
  step_if_rehashing-Models h m = elim (Option-cases h.rehashing_idx) [
    | inl e ↦ (h, ground arith, (m, refl, λ k fresh. fresh))
    | inr (idx, e) ↦
        let (h', run, s) = rehash_step-Stepped idx h m e in
        (
          h',
          rw (e, step_if_rehashing) run,
          (
            s.models,
            s.same_count,
            λ k fresh. elim fresh [ inl p ↦ absurd (cc) | inr p ↦ s.shrinks k p ],
          ),
        )
  ]
