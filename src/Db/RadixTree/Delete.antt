-- ===== src/Db/RadixTree/Delete.antt =====
-- db/rax.go: `Delete`. A merge appends to a prefix in place; the bytes that it overwrites are those
-- of a node that was removed, or of the caller's key, so that prefixes are values here.
pub mod Lost
use go_mock_redis.Base.Signed.{ℤ, pos, increment, decrement}
use go_mock_redis.Base.{
  ℕ, zero, suc, ◌-◌, Bool, true, false, ◌&&◌, ◌||◌, Option, none, some, [], ◌∷◌, ◌++◌,
  if◌then◌else◌, Bytes, bytes_eq, length, drop, Run, ok, fault, nil_pointer, explicit_panic,
  no_fuel, ◌>>=◌,
}
use go_mock_redis.Db.RadixTree.{
  Leaf, Tree, node, Edges, no_edges, edge, RaxTree, has_prefix, prefix_of, edges_of, leaf_of, Walk,
  found, missing, walk_edge,
}

-- `len(search) == 0`
abbrev pub ends : Bytes → Bool
ends [] = true
ends (c ∷ s) = false

module _ {T : Type 0} where
  -- `removeEdgeByIdx`
  unfoldable pub remove_edge_by_idx : Edges T → ℕ → Run (Edges T)
  remove_edge_by_idx no_edges i = fault explicit_panic
  remove_edge_by_idx (edge l n es) zero = ok es
  remove_edge_by_idx (edge l n es) (suc i) = do es' ← remove_edge_by_idx es i; ok (edge l n es')

  -- The last loop: a node with one edge and no leaf takes over its child.
  unfoldable pub merge : Bytes → Edges T → Option (Leaf T) → Tree T
  merge prefix (edge l (node q es leaf) no_edges) none = merge (prefix ++ q) es leaf
  merge prefix es leaf = node prefix es leaf

  -- What `Delete` does with its node below `parent`.
  unfoldable pub unlink : (parent : Tree T) → (idx : ℕ) → Option (Leaf T) → Run (Option (Tree T))
  unfolding remove_edge_by_idx merge
  unlink parent i none = ok none
  unlink parent i (some leaf) = do
    es ← remove_edge_by_idx (edges_of parent) i
    ok (some (merge (prefix_of parent) es (leaf_of parent)))

  -- A node below that has changed in place.
  unfoldable pub put_next : Edges T → ℕ → Tree T → Edges T
  put_next no_edges i n = no_edges
  put_next (edge l m es) zero n = edge l n es
  put_next (edge l m es) (suc i) n = edge l m (put_next es i n)

  unfoldable pub rejoin : Tree T → ℕ → Option (Tree T) → Option (Tree T)
  unfolding put_next
  rejoin n i none = none
  rejoin n i (some next) = some (node (prefix_of n) (put_next (edges_of n) i next) (leaf_of n))

  -- A round of the loop, at the edge that the search gave; `rest` is the round below.
  unfoldable pub delete_at :
      (Tree T → Bytes → Run (Option (Tree T)))
      → Tree T
      → (search : Bytes) → Walk T
      → Run (Option (Tree T))
  unfolding unlink rejoin has_prefix
  delete_at rest n search (missing i) = ok none
  delete_at rest n search (found next i match_bytes) =
      let left = drop (length match_bytes) search in
      let deeper = rest next left >>= λ below. ok (rejoin n i below) in
      if bytes_eq (prefix_of next) search
      then unlink n i (leaf_of next)
      else if has_prefix (prefix_of next) match_bytes
      then if ends left then unlink n i (leaf_of next) else deeper
      else ok none

  -- The node with its subtree changed, or none where the key is not found.
  unfoldable pub delete_from : ℕ → Tree T → Bytes → Run (Option (Tree T))
  unfolding walk_edge delete_at
  delete_from zero n search = fault no_fuel
  delete_from (suc fuel) n search = do
    w ← walk_edge (edges_of n) search
    delete_at (delete_from fuel) n search w

  unfoldable pub deleted : RaxTree T → Option (Tree T) → RaxTree T × Bool
  deleted t none = (t, false)
  deleted t (some root) = (record { root = root; size = decrement t.size }, true)

  -- The empty key is that of the root, which has no parent to remove it from.
  unfoldable pub delete : RaxTree T → Bytes → Run (RaxTree T × Bool)
  unfolding delete_from deleted
  delete t [] = elim (leaf_of t.root) [ none ↦ ok (t, false) | some leaf ↦ fault nil_pointer ]
  delete t (c ∷ s) = do
    result ← delete_from (suc (length (c ∷ s))) t.root (c ∷ s)
    ok (deleted t result)
