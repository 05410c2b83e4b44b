-- ===== src/Db/Dict/Insert/Slots.antt =====
-- db/dict.go, `GetEntry`, `GetVal` and `SetVal`: reading and writing through a pointer to an entry.
use go_mock_redis.Base.{
  ℕ, suc, ◌<◌, ◌≡◌, refl, List, [], ◌∷◌, arith, if◌then◌else◌, Option, none, some, length, set,
  Bool-cases, Option-cases, inl, inr,
}
use go_mock_redis.Db.Hash.{Key}
use go_mock_redis.Db.Dict.{Chain, find}
use go_mock_redis.Db.Dict.Insert.{value_at, write_at, position_of}
use go_mock_redis.Db.Dict.Chains.{count}
use go_mock_redis.Db.Dict.Buckets.{home, bucket, Holds, set-Holds}
use go_mock_redis.Db.Dict.Write.{update}

module _ {ℓ} {K V : Type ℓ} ⦃key : Key K⦄ (k : K) where
  pub position_of-eq-none : (c : Chain K V) → find k c ≡ none → position_of k c ≡ none
  unfolding find position_of
  position_of-eq-none [] h = refl
  position_of-eq-none (e ∷ c) h = ground (arith, position_of-eq-none c)

  pub position_of-nil : (c : Chain K V) → c ≡ [] → position_of k c ≡ none
  unfolding position_of
  position_of-nil c e = rw e

  pub position_of-eq-some :
      (c : Chain K V) {v : V} → find k c ≡ some v → (p : ℕ) × (position_of k c ≡ some p)
  unfolding find position_of
  position_of-eq-some [] h = absurd (cc)
  position_of-eq-some (e ∷ c) {v} h = elim (Bool-cases (key.equal e.0 k)) [
    | inl same ↦ (0, rw same)
    | inr other ↦
        let (p, found) = position_of-eq-some c {v = v} (ground arith) in (suc p, rw (other, found))
  ]

  pub value_at-position_of :
      (c : Chain K V) {p : ℕ} → position_of k c ≡ some p → value_at c p ≡ find k c
  unfolding find position_of value_at
  value_at-position_of [] h = cc
  value_at-position_of (e ∷ c) {p} h = elim (Bool-cases (key.equal e.0 k)) [
    | inl same ↦ let first : 0 ≡ p = ground arith in rw (← first) (rw same)
    | inr other ↦ elim (Option-cases (position_of k c)) [
      | inl missing ↦ absurd (ground arith)
      | inr (p', e') ↦
          let next : suc p' ≡ p = ground arith in rw (← next, other) (value_at-position_of c e')
    ]
  ]

  -- A write through the pointer changes what the chain reads under the key, and nothing else.
  write_at-position_of :
      (v : V) (c : Chain K V) {p : ℕ}
      → position_of k c ≡ some p
      → ((q : K)
          → (find q (write_at c p v) ≡ (if key.equal k q then some v else find q c))
            × (count q (write_at c p v) ≡ count q c))
        × (length (write_at c p v) ≡ length c)
  unfolding find position_of write_at count
  write_at-position_of v [] h = absurd (cc)
  write_at-position_of v (e ∷ c) {p} h = elim (Bool-cases (key.equal e.0 k)) [
    | inl same ↦
        let first : 0 ≡ p = ground arith in
        rw (← first) (λ q. (ground (arith, key.equal_sound e.0 k), refl), refl)
    | inr other ↦ elim (Option-cases (position_of k c)) [
      | inl missing ↦ absurd (ground arith)
      | inr (p', e') ↦
          let next : suc p' ≡ p = ground arith in
          let (ih, size) = write_at-position_of v c e' in
          rw (← next) (
            λ q. (
              ground (arith, (ih q).0, key.equal_sound e.0 k, key.equal_sound k q),
              omega (arith, (ih q).1),
            ),
            omega (arith, size),
          )
    ]
  ]

  pub rewrite-Holds :
      {n total : ℕ} {f : K → Option V} (v : V) (t : List (Chain K V)) {p : ℕ}
      → 0 < n
      → Holds n total f t
      → position_of k (bucket t (home k n)) ≡ some p
      → Holds n total (update f k (some v)) (set t (home k n) (write_at (bucket t (home k n)) p v))
  rewrite-Holds {n} {total} v t pos holds e =
      let (reads, size) = write_at-position_of v (bucket t (home k n)) e in
      let u =
        set-Holds t pos holds.width holds.placed k (some v) _ total
          (omega (arith, size, holds.size)) (λ q. omega (arith, (reads q).1)) (λ q. (reads q).0) in
      record {
        width = u.width;
        size = u.size;
        placed = u.placed;
        reads = λ q. ground (arith, u.reads q, holds.reads q);
      }
