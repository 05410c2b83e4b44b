-- ===== src/Db/RadixTree.antt =====
-- db/rax.go: a radix tree. No two nodes share a child here, so nodes are values, and a write through
-- a pointer to a child is a new tree.
pub mod Operations
pub mod Sorted
pub mod Search
pub mod Keys
pub mod Delete
pub mod Split
use mathlib.Core.Option
use go_mock_redis.Base.Signed.{ℤ, pos, increment, decrement}
use go_mock_redis.Base.{
  ℕ, zero, suc, ◌+◌, ◌-◌, ◌/◌, Bool, true, false, ◌||◌, Option, none, some, [], ◌∷◌, ltb, ◌==◌,
  if◌then◌else◌, Bytes, length, drop, Run, ok, fault, explicit_panic, out_of_range, no_fuel, ◌>>=◌,
}

-- `LeafNode`
pub record Leaf (T : Type 0) : Type 0 where
  pub key : Bytes
  pub val : T

-- `Node`, and the slice of `Edge`s, each with its label and its node.
mutual
  pub data Tree (T : Type 0) : Type 0 where
    node : (prefix : Bytes) → Edges T → Option (Leaf T) → Tree T

  pub data Edges (T : Type 0) : Type 0 where
    no_edges : Edges T
    edge : (label : Bytes) → Tree T → Edges T → Edges T

-- `RaxTree`
pub record RaxTree (T : Type 0) : Type 0 where
  pub root : Tree T
  pub size : ℤ

-- The result of `walkEdge`: an edge that shares its first bytes with the label, or an index.
pub data Walk (T : Type 0) : Type 0 where
  found : (next : Tree T) → (index : ℕ) → (match_bytes : Bytes) → Walk T
  missing : (index : ℕ) → Walk T

-- `bytes.Compare`
pub data Order : Type 0 where
  less equal more : Order

unfoldable pub compare_bytes : Bytes → Bytes → Order
compare_bytes [] [] = equal
compare_bytes [] (b ∷ t) = less
compare_bytes (a ∷ s) [] = more
compare_bytes (a ∷ s) (b ∷ t) =
    let later = compare_bytes s t in if ltb a b then less else if ltb b a then more else later

abbrev pub is_equal : Order → Bool
is_equal equal = true
is_equal _ = false

-- `bytes.HasPrefix(s, t)`
unfoldable pub has_prefix : Bytes → Bytes → Bool
has_prefix s [] = true
has_prefix [] (b ∷ t) = false
has_prefix (a ∷ s) (b ∷ t) = let later = has_prefix s t in if a == b then later else false

unfoldable pub longest_common_prefix : Bytes → Bytes → Bytes
longest_common_prefix (a ∷ s) (b ∷ t) =
    let later = a ∷ longest_common_prefix s t in if a == b then later else []
longest_common_prefix _ _ = []

module _ {T : Type 0} where
  abbrev pub prefix_of : Tree T → Bytes
  prefix_of (node prefix es leaf) = prefix

  abbrev pub edges_of : Tree T → Edges T
  edges_of (node prefix es leaf) = es

  abbrev pub leaf_of : Tree T → Option (Leaf T)
  leaf_of (node prefix es leaf) = leaf

  -- `len(n.edges)`, `n.edges[i]`, and the writes of the slice.
  abbrev pub count : Edges T → ℕ
  count no_edges = 0
  count (edge label n es) = suc (count es)

  abbrev pub nth : Edges T → ℕ → Option (Bytes × Tree T)
  nth no_edges i = none
  nth (edge label n es) zero = some (label, n)
  nth (edge label n es) (suc i) = nth es i

  -- `addEdgeByIdx`: at the end the edge is appended, before it the others move up.
  unfoldable pub add_edge_by_idx : Edges T → ℕ → Bytes → Tree T → Edges T
  add_edge_by_idx no_edges i label n = edge label n no_edges
  add_edge_by_idx (edge l m es) zero label n = edge label n (edge l m es)
  add_edge_by_idx (edge l m es) (suc i) label n = edge l m (add_edge_by_idx es i label n)

  -- `updateEdge`
  unfoldable pub update_edge : Edges T → ℕ → Tree T → Run (Edges T)
  update_edge no_edges i n = fault explicit_panic
  update_edge (edge l m es) zero n = ok (edge (prefix_of n) n es)
  update_edge (edge l m es) (suc i) n = do es' ← update_edge es i n; ok (edge l m es')

  -- A round of `walkEdge` at the edge in the middle, with the rounds that follow in the lower and in
  -- the upper half.
  unfoldable pub probe :
      Bytes → (mid : ℕ) → (lower upper : Run (Walk T)) → Option (Bytes × Tree T) → Run (Walk T)
  unfolding compare_bytes longest_common_prefix
  probe label mid lower upper none = fault out_of_range
  probe label mid lower upper (some (l, n)) =
      if is_equal (compare_bytes l label) || ltb 0 (length (longest_common_prefix l label))
      then ok (found n mid (longest_common_prefix l label))
      else elim (compare_bytes l label) [ more ↦ lower | _ ↦ upper ]

  -- The loop of `walkEdge` from `left` up to but not at `right`; `closestIndex + 1` is `left` all
  -- along.
  unfoldable pub walk_from : ℕ → Edges T → Bytes → (left right : ℕ) → Run (Walk T)
  unfolding probe
  walk_from zero es label left right = fault no_fuel
  walk_from (suc fuel) es label left right =
      let mid = (left + right - 1) / 2 in
      let lower = walk_from fuel es label left mid in
      let upper = walk_from fuel es label (mid + 1) right in
      let round = probe label mid lower upper (nth es mid) in
      if ltb left right then round else ok (missing left)

  unfoldable pub walk_edge : Edges T → Bytes → Run (Walk T)
  unfolding walk_from
  walk_edge es label = walk_from (suc (count es)) es label 0 (count es)

  -- The loop of `findClosestPrefixIndex`, in the same way.
  unfoldable pub closest_probe :
      Bytes → (mid : ℕ) → (lower upper : Run ℕ) → Option (Bytes × Tree T) → Run ℕ
  unfolding compare_bytes has_prefix
  closest_probe label mid lower upper none = fault out_of_range
  closest_probe label mid lower upper (some (l, n)) =
      if is_equal (compare_bytes l label) || has_prefix label l || has_prefix l label
      then ok mid
      else elim (compare_bytes l label) [ more ↦ lower | _ ↦ upper ]

  unfoldable pub closest_from : ℕ → Edges T → Bytes → (left right : ℕ) → Run ℕ
  unfolding closest_probe
  closest_from zero es label left right = fault no_fuel
  closest_from (suc fuel) es label left right =
      let mid = (left + right - 1) / 2 in
      let lower = closest_from fuel es label left mid in
      let upper = closest_from fuel es label (mid + 1) right in
      let round = closest_probe label mid lower upper (nth es mid) in
      if ltb left right then round else ok left

  unfoldable pub find_closest_prefix_index : Edges T → Bytes → Run ℕ
  unfolding closest_from
  find_closest_prefix_index es label = closest_from (suc (count es)) es label 0 (count es)

  unfoldable pub add_edge : Edges T → Bytes → Tree T → Run (Edges T)
  unfolding find_closest_prefix_index add_edge_by_idx
  add_edge es label n = do i ← find_closest_prefix_index es label; ok (add_edge_by_idx es i label n)
