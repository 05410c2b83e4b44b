-- ===== src/Db/RadixTree/Operations.antt =====
-- db/rax.go: `Insert` and `Find`.
use mathlib.Core.Option
use go_mock_redis.Base.Signed.{pos, increment}
use go_mock_redis.Base.{
  ℕ, zero, suc, Bool, true, false, Option, none, some, [], ◌∷◌, ◌==◌, if◌then◌else◌, Bytes, length,
  drop, Run, ok, fault, no_fuel, ◌>>=◌,
}
use go_mock_redis.Db.RadixTree.{
  Leaf, Tree, node, Edges, no_edges, RaxTree, prefix_of, edges_of, leaf_of, add_edge_by_idx,
  update_edge, Walk, found, missing, walk_edge, add_edge,
}

module _ {T : Type 0} where
  unfoldable pub new_rax_tree : RaxTree T
  new_rax_tree = record { root = node [] no_edges none; size = pos 0 }

  abbrev pub leaf_node : Bytes → Bytes → T → Tree T
  leaf_node prefix key val = node prefix no_edges (some (record { key = key; val = val }))

  -- The end of a key: the leaf of the node that the loop starts at, which is the root each time.
  unfoldable pub insert_here : RaxTree T → Bytes → T → Option (Leaf T) → RaxTree T × Bool
  insert_here t key val (some leaf) = (
    record t {
      root = node (prefix_of t.root) (edges_of t.root) (some (record leaf { val = val }));
    },
    false,
  )
  insert_here t key val none = (
    record {
      root = node (prefix_of t.root) (edges_of t.root) (some (record { key = key; val = val }));
      size = increment t.size;
    },
    true,
  )

  abbrev pub with_edges : RaxTree T → Edges T → RaxTree T
  with_edges t es = record {
    root = node (prefix_of t.root) es (leaf_of t.root);
    size = increment t.size;
  }

  -- The new inner node: the old node behind the common bytes, and the rest of the key.
  unfoldable pub split_node :
      (key search : Bytes) → T → (match_bytes : Bytes) → Tree T → Run (Tree T)
  split_node key search val match_bytes (node prefix es leaf) = do
    let rest = drop (length match_bytes) prefix
    let left = drop (length match_bytes) search
    olds ← add_edge no_edges rest (node rest es leaf)
    let grown = add_edge olds left (leaf_node left key val)
    if length left == 0
        then ok (node match_bytes olds (some (record { key = key; val = val })))
        else (do both ← grown; ok (node match_bytes both none))

  -- What `Insert` does with the result of the search; `rest` is the next round.
  unfoldable pub insert_at :
      RaxTree T
      → (key search : Bytes) → T
      → Run (RaxTree T × Bool)
      → Walk T
      → Run (RaxTree T × Bool)
  unfolding add_edge_by_idx split_node update_edge
  insert_at t key search val rest (missing i) = ok (
    with_edges t (add_edge_by_idx (edges_of t.root) i search (leaf_node search search val)),
    true,
  )
  insert_at t key search val rest (found n i match_bytes) =
      let split = do
        inner ← split_node key search val match_bytes n
        es ← update_edge (edges_of t.root) i inner
        ok (with_edges t es, true)
      in if length match_bytes == length (prefix_of n) then rest else split

  abbrev pub matched : Walk T → ℕ
  matched (found n i match_bytes) = length match_bytes
  matched (missing i) = 0

  -- The loop of `Insert`. The variable `n` that the search assigns is a new one, so each round
  -- starts at the root again.
  unfoldable pub insert_from : ℕ → RaxTree T → (key search : Bytes) → T → Run (RaxTree T × Bool)
  unfolding walk_edge insert_here insert_at
  insert_from zero t key search val = fault no_fuel
  insert_from (suc fuel) t key [] val = ok (insert_here t key val (leaf_of t.root))
  insert_from (suc fuel) t key (c ∷ s) val = do
    w ← walk_edge (edges_of t.root) (c ∷ s)
    insert_at t key (c ∷ s) val (insert_from fuel t key (drop (matched w) (c ∷ s)) val) w

  unfoldable pub insert : RaxTree T → Bytes → T → Run (RaxTree T × Bool)
  unfolding insert_from
  insert t key val = insert_from (suc (length key)) t key key val

  -- A round of `Find`: it goes down whatever part of the edge was matched.
  unfoldable pub go_down : (Tree T → Bytes → Run (Option T)) → Bytes → Walk T → Run (Option T)
  go_down rest search (missing i) = ok none
  go_down rest search (found next i match_bytes) = rest next (drop (length match_bytes) search)

  unfoldable pub find_from : ℕ → Tree T → Bytes → Run (Option T)
  unfolding walk_edge go_down
  find_from zero n search = fault no_fuel
  find_from (suc fuel) n [] = ok (Option.map (λ leaf. leaf.val) (leaf_of n))
  find_from (suc fuel) n (c ∷ s) = do
    w ← walk_edge (edges_of n) (c ∷ s)
    go_down (find_from fuel) (c ∷ s) w

  unfoldable pub find : RaxTree T → Bytes → Run (Option T)
  unfolding find_from
  find t key = find_from (suc (length key)) t.root key
