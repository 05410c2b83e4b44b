-- ===== src/Db/RadixTree/Search.antt =====
-- `Insert` and `Find` of db/rax.go for a key with a new first byte, where the tree does what it
-- should, and for keys that begin as others do, where it does not.
use go_mock_redis.Base.{
  ℕ, zero, suc, ◌+◌, ◌<◌, ◌≤◌, ◌≡◌, refl, false, Option, none, some, ◌∷◌, arith, ◌==◌,
  if◌then◌else◌, Bytes, length, drop, Run, ok, ◌>>=◌,
}
use go_mock_redis.Db.RadixTree.{
  Leaf, Tree, node, Edges, no_edges, edge, longest_common_prefix, count, nth, Walk, found, missing,
  add_edge_by_idx,
}
use go_mock_redis.Db.RadixTree.Operations.{find_from, go_down}
use go_mock_redis.Db.RadixTree.Sorted.{
  first, IsSorted, AreBelow, AreAbove, IsWalk, walk_edge-IsWalk,
}

module _ {T : Type 0} where
  -- Labels that are not empty, whose first bytes rise from a bound on.
  abbrev pub IsRising : ℕ → Edges T → Type 0
  IsRising lo no_edges = Unit {0}
  IsRising lo (edge l n es) = (lo ≤ first l) × (0 < length l) × IsRising (first l + 1) es

  pub IsRising-weaken : (lo hi : ℕ) (es : Edges T) → lo ≤ hi → IsRising hi es → IsRising lo es
  IsRising-weaken lo hi no_edges le h = tt
  IsRising-weaken lo hi (edge l n es) le h = (omega arith, h.1, h.2)

  pub at_least :
      (lo : ℕ) (es : Edges T) (i : ℕ) (l : Bytes) (n : Tree T)
      → IsRising lo es
      → nth es i ≡ some (l, n)
      → lo ≤ first l
  at_least lo no_edges i l n h e = cc
  at_least lo (edge m k es) zero l n h e = ground arith
  at_least lo (edge m k es) (suc i) l n h e = omega (arith, at_least (first m + 1) es i l n h.2 e)

  all_filled :
      (lo : ℕ) (es : Edges T) (i : ℕ) (l : Bytes) (n : Tree T)
      → IsRising lo es
      → nth es i ≡ some (l, n)
      → 0 < length l
  all_filled lo no_edges i l n h e = cc
  all_filled lo (edge m k es) zero l n h e = ground arith
  all_filled lo (edge m k es) (suc i) l n h e = all_filled (first m + 1) es i l n h.2 e

  all_rising :
      (lo : ℕ) (es : Edges T) (i j : ℕ) (l m : Bytes) (n k : Tree T)
      → IsRising lo es
      → i < j
      → nth es i ≡ some (l, n)
      → nth es j ≡ some (m, k)
      → first l < first m
  all_rising lo no_edges i j l m n k h lt e f = cc
  all_rising lo (edge q r es) i zero l m n k h lt e f = absurd (omega arith)
  all_rising lo (edge q r es) zero (suc j) l m n k h lt e f =
      ground (arith, at_least (first q + 1) es j m k h.2 f)
  all_rising lo (edge q r es) (suc i) (suc j) l m n k h lt e f =
      all_rising (first q + 1) es i j l m n k h.2 (omega arith) e f

  pub IsRising-IsSorted : (es : Edges T) → IsRising 0 es → IsSorted es
  IsRising-IsSorted es h = record {
    filled = λ i l n. all_filled 0 es i l n h;
    rising = λ i j l m n k. all_rising 0 es i j l m n k h;
  }

  -- The first edge whose label begins with a byte.
  unfoldable pub pick : Edges T → ℕ → Option (Bytes × Tree T)
  pick no_edges c = none
  pick (edge l n es) c = let later = pick es c in if first l == c then some (l, n) else later

  pub pick-nth :
      (lo : ℕ) (es : Edges T) (c i : ℕ) (l : Bytes) (n : Tree T)
      → IsRising lo es
      → nth es i ≡ some (l, n)
      → first l ≡ c
      → pick es c ≡ some (l, n)
  unfolding pick
  pick-nth lo no_edges c i l n h e f = cc
  pick-nth lo (edge m k es) c zero l n h e f = ground arith
  pick-nth lo (edge m k es) c (suc i) l n h e f =
      let above = at_least (first m + 1) es i l n h.2 e in
      let other : (first m == c) ≡ false = ground arith in
      rw other (pick-nth (first m + 1) es c i l n h.2 e f)

  pub pick-none : (es : Edges T) (c i : ℕ) → AreBelow es c i → AreAbove es c i → pick es c ≡ none
  unfolding pick
  pick-none no_edges c i b a = refl
  pick-none (edge m k es) c zero b a =
      let other : (first m == c) ≡ false = ground (arith, a 0 m k) in
      rw other (
        pick-none es c zero (λ j l n lt e. absurd (omega arith))
          (λ j l n le e. a (suc j) l n (omega arith) e))
  pick-none (edge m k es) c (suc i) b a =
      let other : (first m == c) ≡ false = ground (arith, b 0 m k) in
      rw other (
        pick-none es c i (λ j l n lt e. b (suc j) l n (omega arith) e)
          (λ j l n le e. a (suc j) l n (omega arith) e))

  -- What a step of `Find` does with a linear search for the edge.
  abbrev pub step : (fuel : ℕ) → Bytes → Option (Bytes × Tree T) → Run (Option T)
  step fuel key none = ok none
  step fuel key (some (l, n)) = find_from fuel n (drop (length (longest_common_prefix l key)) key)

  go_down-pick :
      (fuel : ℕ) (es : Edges T) (c : ℕ) (s : Bytes) (w : Walk T)
      → IsRising 0 es
      → IsWalk es c s w
      → go_down (find_from fuel) (c ∷ s) w ≡ step fuel (c ∷ s) (pick es c)
  unfolding go_down
  go_down-pick fuel es c s (missing i) h is = rw (pick-none es c i is.1 is.2) refl
  go_down-pick fuel es c s (found n i m) h (l, e, f, g) = rw (pick-nth 0 es c i l n h e f, g) refl

  -- A round of `Find` at a node whose labels are not empty and rise in their first bytes, where
  -- the edge is found by halving, goes on as with a search of the edges from the first on: below
  -- the edge whose label begins with the byte, and with no value where there is none.
  pub find_from-pick :
      (fuel : ℕ) (prefix : Bytes) (es : Edges T) (leaf : Option (Leaf T)) (c : ℕ) (s : Bytes)
      → IsRising 0 es
      → find_from (suc fuel) (node prefix es leaf) (c ∷ s) ≡ step fuel (c ∷ s) (pick es c)
  unfolding find_from
  find_from-pick fuel prefix es leaf c s h =
      let (w, run, is) = walk_edge-IsWalk es (IsRising-IsSorted es h) c s in
      rw (find_from, run, ◌>>=◌) (go_down-pick fuel es c s w h is)

  -- A new edge, at the place that the search gave.
  pub pick-add_edge_by_idx :
      (es : Edges T) (i c d : ℕ) (s : Bytes) (n : Tree T)
      → AreBelow es c i
      → AreAbove es c i
      → pick (add_edge_by_idx es i (c ∷ s) n) d ≡ (if c == d then some (c ∷ s, n) else pick es d)
  unfolding pick add_edge_by_idx
  pick-add_edge_by_idx no_edges i c d s n b a = refl
  pick-add_edge_by_idx (edge m k es) zero c d s n b a = refl
  pick-add_edge_by_idx (edge m k es) (suc i) c d s n b a =
      let later =
        pick-add_edge_by_idx es i c d s n (λ j l n lt e. b (suc j) l n (omega arith) e)
          (λ j l n le e. a (suc j) l n (omega arith) e) in
      ground (arith, b 0 m k)

  pub IsRising-add_edge_by_idx :
      (lo : ℕ) (es : Edges T) (i c : ℕ) (s : Bytes) (n : Tree T)
      → lo ≤ c
      → i ≤ count es
      → AreBelow es c i
      → AreAbove es c i
      → IsRising lo es
      → IsRising lo (add_edge_by_idx es i (c ∷ s) n)
  unfolding add_edge_by_idx
  IsRising-add_edge_by_idx lo no_edges i c s n le k b a h = (le, omega arith, tt)
  IsRising-add_edge_by_idx lo (edge m r es) zero c s n le k b a h =
      (le, omega arith, (ground (arith, a 0 m r), h.1, h.2))
  IsRising-add_edge_by_idx lo (edge m r es) (suc i) c s n le k b a h = (
    h.0,
    h.1,
    IsRising-add_edge_by_idx (first m + 1) es i c s n (ground (arith, b 0 m r)) (omega arith)
        (λ j l n lt e. b (suc j) l n (omega arith) e) (λ j l n le e. a (suc j) l n (omega arith) e)
        h.2,
  )
