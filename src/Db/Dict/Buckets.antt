-- ===== src/Db/Dict/Buckets.antt =====
-- db/dict.go: one table of buckets, where its entries stand, what it means as a map, and writes to
-- one bucket.
use Prim.Native.Nat.{max}
use go_mock_redis.Base.{
  ℕ, zero, suc, ◌+◌, ◌%◌, ◌≤◌, ◌<◌, ◌≡◌, ◌≢◌, refl, List, [], ◌∷◌, arith, if◌then◌else◌, Option,
  none, length, get_or, set, replicate, length-set, get_or-set, get_or-replicate, length-replicate,
  get_elem?-get_or, ok, ◌>>=◌,
}
use go_mock_redis.Db.Hash.{Key, fnv1a, hash}
use go_mock_redis.Db.Dict.{Chain, find, at}
use go_mock_redis.Db.Dict.Chains.{to_nat, count}

-- Where a key's entry belongs in a table of `n` buckets.
unfoldable pub home {ℓ} : {K : Type ℓ} ⦃key : Key K⦄ → K → ℕ → ℕ
home ⦃key⦄ k n = fnv1a 2166136261 (key.printed k) % n

pub hash-home {ℓ} : {K : Type ℓ} ⦃key : Key K⦄ (k : K) (n : ℕ) → 0 < n → hash k n ≡ ok (home k n)
unfolding hash home
hash-home k n h = ground arith

pub home-lt {ℓ} : {K : Type ℓ} ⦃key : Key K⦄ (k : K) (n : ℕ) → 0 < n → home k n < n
unfolding home
home-lt k n h = omega arith

pub at-get_or {ℓ} :
    {A : Type ℓ} (xs : List A) (i : ℕ) (d : A) → i < length xs → at xs i ≡ ok (get_or xs i d)
unfolding at
at-get_or xs i d h = rw (get_elem?-get_or xs i d h, at)

-- The entries of all buckets.
abbrev pub entries {ℓ} : {A : Type ℓ} → List (List A) → ℕ
entries [] = 0
entries (c ∷ cs) = length c + entries cs

pub entries-set {ℓ} :
    {A : Type ℓ} (cs : List (List A)) (i : ℕ) (c : List A)
    → i < length cs
    → entries (set cs i c) + length (get_or cs i []) ≡ entries cs + length c
entries-set [] i c h = elim h [ ]
entries-set (x ∷ cs) zero c h = omega arith
entries-set (x ∷ cs) (suc i) c h = omega (arith, entries-set cs i c (omega arith))

entries-replicate {ℓ} : (A : Type ℓ) (n : ℕ) → entries {A = A} (replicate n []) ≡ 0
entries-replicate A zero = refl
entries-replicate A (suc n) = omega (arith, entries-replicate A n)

module _ {ℓ} {K V : Type ℓ} ⦃key : Key K⦄ where
  abbrev pub bucket : List (Chain K V) → ℕ → Chain K V
  bucket t i = get_or t i []

  -- A key has at most one entry, and that in its home bucket.
  abbrev pub IsPlaced : ℕ → List (Chain K V) → Type ℓ
  IsPlaced n t =
      (q : K) (i : ℕ) → (count q (bucket t i) ≤ 1) × (home q n ≢ i → count q (bucket t i) ≡ 0)

  -- What the table holds under a key.
  unfoldable pub view : ℕ → List (Chain K V) → K → Option V
  view n t q = find q (bucket t (home q n))

  -- The table has `n` buckets and `total` entries, all in place, and reads as `f`.
  pub record Holds (n total : ℕ) (f : K → Option V) (t : List (Chain K V)) : Type ℓ where
    pub width : length t ≡ n
    pub size : entries t ≡ total
    pub placed : IsPlaced n t
    pub reads : (q : K) → view n t q ≡ f q

  pub replicate-Holds : (n : ℕ) → Holds n 0 (λ _. none) (replicate n [])
  unfolding view count find
  replicate-Holds n = record {
    width = length-replicate n [];
    size = entries-replicate _ n;
    placed = λ q i. rw get_or-replicate (omega arith);
    reads = λ q. rw get_or-replicate;
  }

  module _ {n : ℕ} (t : List (Chain K V)) (pos : 0 < n) (width : length t ≡ n) where
    locate-home : (k : K) → (hash k n >>= λ i. at t i) ≡ ok (bucket t (home k n))
    locate-home k = rw (hash-home k n pos) (at-get_or t _ [] (omega (arith, home-lt k n pos)))

    -- A write that replaces the home bucket of `k` by `c`, which reads `w` under `k`.
    pub set-Holds :
        IsPlaced n t
        → (k : K) (w : Option V) (c : Chain K V) (total : ℕ)
        → total + length (bucket t (home k n)) ≡ entries t + length c
        → ((q : K) → count q c ≤ max (to_nat (key.equal k q)) (count q (bucket t (home k n))))
        → ((q : K) → find q c ≡ (if key.equal k q then w else find q (bucket t (home k n))))
        → Holds n total (λ q. if key.equal k q then w else view n t q) (set t (home k n) c)
    unfolding view
    set-Holds placed k w c total size few reads =
        let inside : home k n < length t = omega (arith, home-lt k n pos) in
        record {
          width = rw length-set width;
          size = omega (arith, entries-set t (home k n) c inside);
          placed = λ q j.
              rw (get_or-set t (home k n) j c [] inside)
                (ground (arith, placed q j, few q, key.equal_sound k q));
          reads = λ q.
              rw (get_or-set t (home k n) (home q n) c [] inside)
                (ground (arith, reads q, key.equal_sound k q));
        }
