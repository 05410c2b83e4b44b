-- ===== src/Db/Dict/Chains.antt =====
-- db/dict.go: what the loops over one chain do.
use Prim.Native.Nat.{max}
use go_mock_redis.Base.{
  ℕ, ◌+◌, ◌≤◌, ◌≡◌, refl, Bool, true, false, [], ◌∷◌, arith, if◌then◌else◌, Option, none, some,
  length,
}
use go_mock_redis.Db.Memory.{Value}
use go_mock_redis.Db.Hash.{Key}
use go_mock_redis.Db.Dict.{Chain, find, put_chain, delete_chain}

abbrev pub to_nat : Bool → ℕ
to_nat b = if b then 1 else 0

abbrev pub is_some {ℓ} : {A : Type ℓ} → Option A → Bool
is_some none = false
is_some (some a) = true

module _ {ℓ} {K V : Type ℓ} ⦃key : Key K⦄ where
  -- The entries of a chain whose key is the given one.
  unfoldable pub count : K → Chain K V → ℕ
  count wanted (entry ∷ chain) = count wanted chain + to_nat (key.equal entry.0 wanted)
  count wanted [] = 0

  module _ (wanted : K) where
    pub count-unfound : (chain : Chain K V) → find wanted chain ≡ none → count wanted chain ≡ 0
    unfolding find count
    count-unfound (entry ∷ chain) unfound = ground (arith, count-unfound chain)
    count-unfound [] unfound = refl

    pub find-uncounted : (chain : Chain K V) → count wanted chain ≡ 0 → find wanted chain ≡ none
    unfolding find count
    find-uncounted (entry ∷ chain) none_counted = ground (arith, find-uncounted chain)
    find-uncounted [] none_counted = refl

  module _ (k q : K) where
    -- The chain reads the new value under the key, and what it read before under any other.
    pub find-put_chain :
        (v : V) (c : Chain K V)
        → find q (put_chain k v c).0 ≡ (if key.equal k q then some v else find q c)
    unfolding find put_chain
    find-put_chain v [] = refl
    find-put_chain v (e ∷ c) =
        ground (arith, find-put_chain v c, key.equal_sound e.0 k, key.equal_sound k q)

    pub count-put_chain-le :
        (v : V) (c : Chain K V)
        → count q (put_chain k v c).0 ≤ max (to_nat (key.equal k q)) (count q c)
    unfolding count put_chain
    count-put_chain-le v [] = ground arith
    count-put_chain-le v (e ∷ c) =
        ground (arith, count-put_chain-le v c, key.equal_sound e.0 k, key.equal_sound k q)

    pub find-delete_chain :
        (value_of : V → Value) (used : ℕ) (c : Chain K V)
        → count q c ≤ 1
        → find q (delete_chain value_of used k c).1 ≡ (if key.equal k q then none else find q c)
    unfolding find delete_chain count
    find-delete_chain value_of used [] h = ground arith
    find-delete_chain value_of used (e ∷ c) h = ground (
      arith,
      find-delete_chain value_of used c,
      find-uncounted q c,
      key.equal_sound e.0 k,
      key.equal_sound k q,
    )

    pub count-delete_chain-le :
        (value_of : V → Value) (used : ℕ) (c : Chain K V)
        → count q (delete_chain value_of used k c).1 ≤ count q c
    unfolding count delete_chain
    count-delete_chain-le value_of used [] = omega arith
    count-delete_chain-le value_of used (e ∷ c) =
        ground (arith, count-delete_chain-le value_of used c)

  -- An entry is added exactly when the key is not in the chain.
  pub added-put_chain :
      (k : K) (v : V) (c : Chain K V)
      → (to_nat (put_chain k v c).1 + to_nat (is_some (find k c)) ≡ 1)
        × (length (put_chain k v c).0 ≡ length c + to_nat (put_chain k v c).1)
  unfolding find put_chain
  added-put_chain k v [] = (refl, refl)
  added-put_chain k v (e ∷ c) =
      (ground (arith, (added-put_chain k v c).0), ground (arith, (added-put_chain k v c).1))

  -- An entry is unlinked exactly when the key is in the chain.
  pub deleted-delete_chain :
      (value_of : V → Value) (used : ℕ) (k : K) (c : Chain K V)
      → ((delete_chain value_of used k c).2 ≡ is_some (find k c))
        × (length (delete_chain value_of used k c).1 + to_nat (delete_chain value_of used k c).2
            ≡ length c)
  unfolding find delete_chain
  deleted-delete_chain value_of used k [] = (refl, refl)
  deleted-delete_chain value_of used k (e ∷ c) = (
    ground (arith, (deleted-delete_chain value_of used k c).0),
    ground (arith, (deleted-delete_chain value_of used k c).1),
  )
