-- ===== src/Db/RadixTree/Keys/Misplaced.antt =====
-- `Insert` and `Find` of db/rax.go for keys that the tree has already or that begin as others do.
use mathlib.Core.Option
use go_mock_redis.Base.Signed.{ℤ, increment}
use go_mock_redis.Base.{
  ℕ, suc, ◌≡◌, refl, ◌∙◌, inl, inr, false, Option, none, some, [], ◌∷◌, ◌++◌, ◌==◌, ==_refl,
  Bool-cases, Bytes, length, drop-append_length, append-nil, ==_iff, ok, Returns, ◌>>=◌,
}
use go_mock_redis.Db.RadixTree.{Leaf, Tree, node, Edges, no_edges}
use go_mock_redis.Db.RadixTree.Operations.{
  insert_here, insert_at, insert_from, insert, find_from, find,
}
use go_mock_redis.Db.RadixTree.Search.{IsRising, pick, find_from-pick}
use go_mock_redis.Db.RadixTree.Keys.{
  find-once, tree, HasNew, find-pick, walk_edge-pick, walk_edge-Fresh, insert_from-new,
  grown-HasNew, common-append, common-longer, drop-all,
}

module _ {T : Type 0} (prefix : Bytes) (es : Edges T) (leaf : Option (Leaf T)) (size : ℤ)
    (h : IsRising 0 es) where
  -- `Find` of a text that a label begins with gives the leaf below the edge.
  find-prefix :
      (c : ℕ) (s r q : Bytes) (below : Edges T) (found_leaf : Option (Leaf T))
      → pick es c ≡ some ((c ∷ s) ++ r, node q below found_leaf)
      → find (tree prefix es leaf size) (c ∷ s) ≡ ok (Option.map (λ l. l.val) found_leaf)
  unfolding find_from
  find-prefix c s r q below found_leaf e =
      find-pick prefix es leaf size h c s ∙ rw (e, common-append (c ∷ s) r, drop-all s) refl

  find-insert_here :
      (lf : Option (Leaf T)) (c : ℕ) (s : Bytes) (val : T) (below : Edges T) (old : Leaf T)
      → pick es c ≡ some (c ∷ s, node (c ∷ s) below (some old))
      → find (insert_here (tree prefix es lf size) (c ∷ s) val lf).0 (c ∷ s) ≡ ok (some old.val)
  unfolding insert_here
  find-insert_here (some l) c s val below old e =
      find-once prefix es _ size c s (c ∷ s) below (some old) h e
  find-insert_here none c s val below old e =
      find-once prefix es _ (increment size) c s (c ∷ s) below (some old) h e

  insert-matched :
      (fuel : ℕ) (key : Bytes) (c : ℕ) (s r : Bytes) (val : T) (below : Edges T)
      (old : Option (Leaf T))
      → pick es c ≡ some (c ∷ s, node (c ∷ s) below old)
      → insert_from (suc fuel) (tree prefix es leaf size) key ((c ∷ s) ++ r) val
        ≡ insert_from fuel (tree prefix es leaf size) key r val
  unfolding insert_from insert_at
  insert-matched fuel key c s r val below old e =
      let (i, run, at) = walk_edge-pick es c (s ++ r) (c ∷ s) (node (c ∷ s) below old) h e in
      rw
        (
          run,
          ◌>>=◌,
          common-longer (c ∷ s) r,
          insert_at,
          ==_refl (length (c ∷ s)),
          drop-append_length,
        )
        refl

  find-longer :
      (c d : ℕ) (s r : Bytes) (old : Option (Leaf T))
      → pick es c ≡ some (c ∷ s, node (c ∷ s) no_edges old)
      → find (tree prefix es leaf size) ((c ∷ s) ++ (d ∷ r)) ≡ ok none
  unfolding pick
  find-longer c d s r old e =
      find-pick prefix es leaf size h c (s ++ (d ∷ r))
      ∙ rw (e, common-longer (c ∷ s) (d ∷ r), drop-append_length)
          (find_from-pick (length (s ++ (d ∷ r))) (c ∷ s) no_edges old d r tt)

  other_byte :
      (c d : ℕ) (p : Bytes × Tree T) → pick es c ≡ some p → pick es d ≡ none → (d == c) ≡ false
  other_byte c d p e f = elim (Bool-cases (d == c)) [
    | inl same ↦ cc ((==_iff d c).0 same)
    | inr differ ↦ differ
  ]

  -- `Insert` of a key that goes on behind the label of an edge of the root, where the node below
  -- has the label itself as its prefix, a leaf and no edges, puts the value under what follows
  -- behind that label instead: it reports a new key, and `Find` gives the value for these bytes
  -- alone and none for the key, provided that the labels of the root are not empty and rise in
  -- their first bytes and none begins as these bytes do.
  pub insert-longer :
      (c d : ℕ) (s r : Bytes) (val : T) (old : Leaf T)
      → pick es c ≡ some (c ∷ s, node (c ∷ s) no_edges (some old))
      → pick es d ≡ none
      → Returns (insert (tree prefix es leaf size) ((c ∷ s) ++ (d ∷ r)) val) (λ result.
        HasNew prefix es leaf size h d r val result
        × (find result.0 ((c ∷ s) ++ (d ∷ r)) ≡ ok none))
  unfolding insert
  insert-longer c d s r val old e f =
      let key = (c ∷ s) ++ (d ∷ r) in
      let (i, run, k, below, above) = walk_edge-Fresh es d r h f in
      let has = grown-HasNew prefix es leaf size h d r val i k below above in
      (
        _,
        insert-matched (length key) key c s (d ∷ r) val no_edges (some old) e
            ∙ insert_from-new prefix es leaf size h (length (s ++ (d ∷ r))) key d r val i run,
        (
          has,
          has.3 c (s ++ (d ∷ r)) (other_byte c d (c ∷ s, node (c ∷ s) no_edges (some old)) e f)
              ∙ find-longer c d s r (some old) e,
        ),
      )

  -- `Insert` of a key that the tree has already, at an edge of the root.
  insert-again :
      (c : ℕ) (s : Bytes) (val : T) (below : Edges T) (old : Leaf T)
      → pick es c ≡ some (c ∷ s, node (c ∷ s) below (some old))
      → (insert (tree prefix es leaf size) (c ∷ s) val
          ≡ ok (insert_here (tree prefix es leaf size) (c ∷ s) val leaf))
        × (find (insert_here (tree prefix es leaf size) (c ∷ s) val leaf).0 (c ∷ s)
            ≡ ok (some old.val))
  unfolding insert
  insert-again c s val below old e = (
    rw append-nil at (insert-matched (suc (length s)) (c ∷ s) c s [] val below (some old) e),
    find-insert_here leaf c s val below old e,
  )
