-- ===== src/Db/RadixTree/Sorted.antt =====
-- The binary search of `walkEdge` in db/rax.go against the edges in order.
use go_mock_redis.Base.{
  ℕ, zero, suc, ◌+◌, ◌-◌, ◌/◌, ◌<◌, ◌≤◌, ◌≡◌, refl, ◌⊎◌, inl, inr, none, some, [], ◌∷◌, arith, ltb,
  ◌==◌, if◌then◌else◌, Bool-cases, Bytes, length, Run, ok, Returns,
}
use go_mock_redis.Db.RadixTree.{
  Tree, Edges, no_edges, edge, compare_bytes, longest_common_prefix, count, nth, Walk, found,
  missing, probe, walk_from, walk_edge,
}

abbrev pub first : Bytes → ℕ
first [] = 0
first (c ∷ s) = c

split_le : (i j : ℕ) → i ≤ j → (i ≡ j) ⊎ (i < j)
split_le i j h = elim (Bool-cases (i == j)) [
  | inl e ↦ inl (ground arith)
  | inr e ↦ inr (ground arith)
]

module _ {T : Type 0} where
  -- No label is empty, and the first bytes of the labels rise.
  pub record IsSorted (es : Edges T) : Type 0 where
    pub filled : (i : ℕ) (l : Bytes) (n : Tree T) → nth es i ≡ some (l, n) → 0 < length l
    pub rising :
        (i j : ℕ) (l m : Bytes) (n k : Tree T)
        → i < j
        → nth es i ≡ some (l, n)
        → nth es j ≡ some (m, k)
        → first l < first m

  abbrev pub AreBelow : Edges T → ℕ → ℕ → Type 0
  AreBelow es c i = (j : ℕ) (l : Bytes) (n : Tree T) → j < i → nth es j ≡ some (l, n) → first l < c

  abbrev pub AreAbove : Edges T → ℕ → ℕ → Type 0
  AreAbove es c i = (j : ℕ) (l : Bytes) (n : Tree T) → i ≤ j → nth es j ≡ some (l, n) → c < first l

  -- The edge whose label begins with the byte `c`, with what it shares with the key; or, where there
  -- is none, the place between the edges below it and those above it.
  abbrev pub IsWalk : Edges T → ℕ → Bytes → Walk T → Type 0
  IsWalk es c s (found n i match_bytes) =
      (l : Bytes) × (nth es i ≡ some (l, n))
      × (first l ≡ c)
      × (match_bytes ≡ longest_common_prefix l (c ∷ s))
  IsWalk es c s (missing i) = (i ≤ count es) × AreBelow es c i × AreAbove es c i

  nth-some :
      (es : Edges T) (i : ℕ) → i < count es → (l : Bytes) × (n : Tree T) × (nth es i ≡ some (l, n))
  nth-some no_edges i h = absurd (omega arith)
  nth-some (edge l n es) zero h = (l, n, refl)
  nth-some (edge l n es) (suc i) h = nth-some es i (omega arith)

  nth-none : (es : Edges T) (i : ℕ) → count es ≤ i → nth es i ≡ none
  nth-none no_edges i h = refl
  nth-none (edge l n es) zero h = absurd (omega arith)
  nth-none (edge l n es) (suc i) h = nth-none es i (omega arith)

  nth_unique :
      (es : Edges T) (i : ℕ) (l m : Bytes) (n k : Tree T)
      → nth es i ≡ some (l, n)
      → nth es i ≡ some (m, k)
      → l ≡ m
  nth_unique es i l m n k e f = cc

  probe-first :
      (a c : ℕ) (l s : Bytes) (n : Tree T) (mid : ℕ) (lower upper : Run (Walk T))
      → probe (c ∷ s) mid lower upper (some (a ∷ l, n)) ≡ (
          if a == c
          then ok (found n mid (longest_common_prefix (a ∷ l) (c ∷ s)))
          else if ltb c a
          then lower
          else upper)
  unfolding probe compare_bytes longest_common_prefix
  probe-first a c l s n mid lower upper = ground arith

  module _ (es : Edges T) (sorted : IsSorted es) (c : ℕ) (s : Bytes) where
    above_mid :
        (mid a : ℕ) (l : Bytes) (n : Tree T)
        → nth es mid ≡ some (a ∷ l, n)
        → c < a
        → AreAbove es c mid
    above_mid mid a l n e lt j m k le f = elim (split_le mid j le) [
      | inl same ↦ rw (nth_unique es j m (a ∷ l) k n f (rw (← same) e)) lt
      | inr later ↦ omega (arith, sorted.rising mid j (a ∷ l) m n k later e f)
    ]

    below_mid :
        (mid a : ℕ) (l : Bytes) (n : Tree T)
        → nth es mid ≡ some (a ∷ l, n)
        → a < c
        → AreBelow es c (mid + 1)
    below_mid mid a l n e lt j m k le f = elim (split_le j mid (omega arith)) [
      | inl same ↦ rw (nth_unique es j m (a ∷ l) k n f (rw same e)) lt
      | inr sooner ↦ omega (arith, sorted.rising j mid m (a ∷ l) k n sooner f e)
    ]

    round-IsWalk :
        (mid : ℕ) (lower upper : Run (Walk T)) (l : Bytes) (n : Tree T)
        → nth es mid ≡ some (l, n)
        → (AreAbove es c mid → Returns lower (IsWalk es c s))
        → (AreBelow es c (mid + 1) → Returns upper (IsWalk es c s))
        → Returns (probe (c ∷ s) mid lower upper (nth es mid)) (IsWalk es c s)
    round-IsWalk mid lower upper [] n e low up = absurd (omega (arith, sorted.filled mid [] n e))
    round-IsWalk mid lower upper (a ∷ l) n e low up =
        rw (e, probe-first a c l s n mid lower upper)
          (elim (Bool-cases (a == c)) [
            | inl hit ↦ rw hit (
              found n mid (longest_common_prefix (a ∷ l) (c ∷ s)),
              refl,
              (a ∷ l, e, (ground arith), refl),
            )
            | inr miss ↦ elim (Bool-cases (ltb c a)) [
              | inl above ↦ rw (miss, above) (low (above_mid mid a l n e (ground arith)))
              | inr below ↦ rw (miss, below) (up (below_mid mid a l n e (ground arith)))
            ]
          ])

    walk_from-IsWalk :
        (fuel left right : ℕ)
        → left ≤ right
        → right ≤ count es
        → right - left < fuel
        → AreBelow es c left
        → AreAbove es c right
        → Returns (walk_from fuel es (c ∷ s) left right) (IsWalk es c s)
    unfolding walk_from
    walk_from-IsWalk zero left right h k f below above = absurd (omega arith)
    walk_from-IsWalk (suc fuel) left right h k f below above = elim (Bool-cases (ltb left right)) [
      | inr met ↦
          rw (walk_from, met)
            (missing left, refl, (omega arith, below, λ j l n le e. above j l n (ground arith) e))
      | inl room ↦
          rw (walk_from, room)
            (let (l, n, e) = nth-some es ((left + right - 1) / 2) (ground arith) in
              round-IsWalk ((left + right - 1) / 2)
                (walk_from fuel es (c ∷ s) left ((left + right - 1) / 2))
                (walk_from fuel es (c ∷ s) ((left + right - 1) / 2 + 1) right) l n e
                (λ up.
                  walk_from-IsWalk fuel left ((left + right - 1) / 2) (ground arith) (ground arith)
                    (ground arith) below up)
                (λ down.
                  walk_from-IsWalk fuel ((left + right - 1) / 2 + 1) right (ground arith) k
                    (ground arith) down above))
    ]

    pub walk_edge-IsWalk : Returns (walk_edge es (c ∷ s)) (IsWalk es c s)
    unfolding walk_edge
    walk_edge-IsWalk =
        walk_from-IsWalk (suc (count es)) 0 (count es) (omega arith) (omega arith) (omega arith)
          (λ j l n lt e. absurd (omega arith)) (λ j l n le e. absurd (none-ne-some j l n le e))
      where
        none-ne-some : (j : ℕ) (l : Bytes) (n : Tree T) → count es ≤ j → nth es j ≡ some (l, n) → ⊥
        none-ne-some j l n le e = cc (nth-none es j le)
