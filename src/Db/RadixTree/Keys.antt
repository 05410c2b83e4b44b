-- ===== src/Db/RadixTree/Keys.antt =====
-- `Insert` and `Find` of db/rax.go for a key with a new first byte.
pub mod Misplaced
use mathlib.Core.Option
use go_mock_redis.Base.Signed.{ℤ, pos, increment, decrement}
use go_mock_redis.Base.{
  ℕ, zero, suc, ◌+◌, ◌<◌, ◌≤◌, ◌≡◌, ◌≢◌, refl, sym, ap, ◌∙◌, inl, inr, Bool, true, false, Option,
  none, some, [], ◌∷◌, ◌++◌, arith, ◌==◌, ==_refl, if◌then◌else◌, Bool-cases, Bytes, length, drop,
  length-append, drop-append_length, append-nil, ==_iff, Run, ok, fault, Returns, ◌>>=◌,
}
use go_mock_redis.Db.RadixTree.{
  Leaf, Tree, node, Edges, no_edges, edge, RaxTree, edges_of, leaf_of, prefix_of,
  longest_common_prefix, count, nth, Walk, found, missing, walk_edge, add_edge_by_idx,
}
use go_mock_redis.Db.RadixTree.Operations.{
  leaf_node, with_edges, insert_here, insert_at, matched, insert_from, insert, find_from, find,
}
use go_mock_redis.Db.RadixTree.Sorted.{
  first, IsSorted, AreBelow, AreAbove, IsWalk, walk_edge-IsWalk,
}
use go_mock_redis.Db.RadixTree.Search.{
  IsRising, IsRising-IsSorted, pick, pick-nth, pick-none, step, find_from-pick,
  pick-add_edge_by_idx, IsRising-add_edge_by_idx,
}

pub common_self : (s : Bytes) → longest_common_prefix s s ≡ s
unfolding longest_common_prefix
common_self [] = refl
common_self (a ∷ s) = rw (==_refl a, common_self s) refl

-- A key is what it shares with a text that begins with it.
pub common-append : (s r : Bytes) → longest_common_prefix (s ++ r) s ≡ s
unfolding longest_common_prefix
common-append [] [] = refl
common-append [] (b ∷ r) = refl
common-append (a ∷ s) r = rw (==_refl a, common-append s r) refl

pub common-longer : (s r : Bytes) → longest_common_prefix s (s ++ r) ≡ s
unfolding longest_common_prefix
common-longer [] [] = refl
common-longer [] (b ∷ r) = refl
common-longer (a ∷ s) r = rw (==_refl a, common-longer s r) refl

pub drop-all : (s : Bytes) → drop (length s) s ≡ []
drop-all [] = refl
drop-all (a ∷ s) = drop-all s

module _ {T : Type 0} where
  abbrev pub tree : Bytes → Edges T → Option (Leaf T) → ℤ → RaxTree T
  tree prefix es leaf size = record { root = node prefix es leaf; size = size }

  -- The walk to a byte that no label begins with.
  abbrev pub Fresh : Edges T → ℕ → Bytes → Type 0
  Fresh es c s =
      (i : ℕ) × (walk_edge es (c ∷ s) ≡ ok (missing i))
      × (i ≤ count es)
      × AreBelow es c i
      × AreAbove es c i

  pub walk_edge-Fresh :
      (es : Edges T) (c : ℕ) (s : Bytes) → IsRising 0 es → pick es c ≡ none → Fresh es c s
  walk_edge-Fresh es c s h e = by_walk (walk_edge-IsWalk es (IsRising-IsSorted es h) c s)
    where
      by_walk :
          Returns (walk_edge es (c ∷ s)) (IsWalk es c s)
          → (i : ℕ) × (walk_edge es (c ∷ s) ≡ ok (missing i))
            × (i ≤ count es)
            × AreBelow es c i
            × AreAbove es c i
      by_walk (missing i, run, is) = (i, run, is.0, is.1, is.2)
      by_walk (found n i m, run, (l, f, g, k)) = cc (pick-nth 0 es c i l n h f g)

  pub walk_edge-pick :
      (es : Edges T) (c : ℕ) (s l : Bytes) (n : Tree T)
      → IsRising 0 es
      → pick es c ≡ some (l, n)
      → (i : ℕ) × (walk_edge es (c ∷ s) ≡ ok (found n i (longest_common_prefix l (c ∷ s))))
        × (nth es i ≡ some (l, n))
  walk_edge-pick es c s l n h e = by_walk (walk_edge-IsWalk es (IsRising-IsSorted es h) c s)
    where
      by_walk :
          Returns (walk_edge es (c ∷ s)) (IsWalk es c s)
          → (i : ℕ) × (walk_edge es (c ∷ s) ≡ ok (found n i (longest_common_prefix l (c ∷ s))))
            × (nth es i ≡ some (l, n))
      by_walk (missing i, run, is) = cc (pick-none es c i is.1 is.2)
      by_walk (found k i m, run, (q, f, g, r)) =
          (i, cc (pick-nth 0 es c i q k h f g), cc (pick-nth 0 es c i q k h f g))

  module _ (prefix : Bytes) (es : Edges T) (leaf : Option (Leaf T)) (size : ℤ)
      (h : IsRising 0 es) where
    pub find-pick :
        (c : ℕ) (s : Bytes)
        → find (tree prefix es leaf size) (c ∷ s) ≡ step (suc (length s)) (c ∷ s) (pick es c)
    unfolding find
    find-pick c s = find_from-pick (suc (length s)) prefix es leaf c s h

    -- A round of `Insert` where no label begins as the rest of the key does.
    pub insert_from-new :
        (fuel : ℕ) (key : Bytes) (c : ℕ) (s : Bytes) (val : T) (i : ℕ)
        → walk_edge es (c ∷ s) ≡ ok (missing i)
        → insert_from (suc fuel) (tree prefix es leaf size) key (c ∷ s) val
          ≡ ok (
            tree prefix
                (add_edge_by_idx es i (c ∷ s) (leaf_node (c ∷ s) (c ∷ s) val))
                leaf
                (increment size),
            true,
          )
    unfolding insert_from insert_at
    insert_from-new fuel key c s val i run = rw (run, ◌>>=◌) refl

    -- The tree has the new key, and what it gave for the keys that begin otherwise.
    abbrev pub HasNew : ℕ → Bytes → T → RaxTree T × Bool → Type 0
    HasNew c s val r =
        (r.1 ≡ true)
        × (r.0.size ≡ increment size)
        × (find r.0 (c ∷ s) ≡ ok (some val))
        × ((d : ℕ) (q : Bytes)
            → (c == d) ≡ false
            → find r.0 (d ∷ q) ≡ find (tree prefix es leaf size) (d ∷ q))

module _ {T : Type 0} (prefix : Bytes) (es : Edges T) (leaf : Option (Leaf T)) (size : ℤ)
    (h : IsRising 0 es) where
  pub grown-HasNew :
      (c : ℕ) (s : Bytes) (val : T) (i : ℕ)
      → i ≤ count es
      → AreBelow es c i
      → AreAbove es c i
      → HasNew prefix es leaf size h c s val (
        tree prefix
            (add_edge_by_idx es i (c ∷ s) (leaf_node (c ∷ s) (c ∷ s) val))
            leaf
            (increment size),
        true,
      )
  unfolding find_from
  grown-HasNew c s val i k below above =
      let new = leaf_node (c ∷ s) (c ∷ s) val in
      let es' = add_edge_by_idx es i (c ∷ s) new in
      let h' = IsRising-add_edge_by_idx 0 es i c s new (omega arith) k below above h in
      (
        refl,
        refl,
        find-pick prefix es' leaf (increment size) h' c s
            ∙ rw
                (
                  pick-add_edge_by_idx es i c c s new below above,
                  ==_refl c,
                  common_self (c ∷ s),
                  drop-all s,
                )
                refl,
        λ d q ne.
            find-pick prefix es' leaf (increment size) h' d q
            ∙ rw (pick-add_edge_by_idx es i c d s new below above, ne) refl
            ∙ sym (find-pick prefix es leaf size h d q),
      )

  -- `Insert` of a key whose first byte begins no label of the root reports a new key and counts
  -- it, `Find` gives the new value for the key, and for every key with another first byte it gives
  -- what it gave before, provided that the labels of the root are not empty and their first bytes
  -- rise.
  pub insert-HasNew :
      (c : ℕ) (s : Bytes) (val : T)
      → pick es c ≡ none
      → Returns
          (insert (tree prefix es leaf size) (c ∷ s) val)
          (HasNew prefix es leaf size h c s val)
  unfolding insert
  insert-HasNew c s val e =
      let (i, run, k, below, above) = walk_edge-Fresh es c s h e in
      (
        _,
        insert_from-new prefix es leaf size h (suc (length s)) (c ∷ s) c s val i run,
        grown-HasNew c s val i k below above,
      )

module _ {T : Type 0} where
  pub find_from-end :
      (fuel : ℕ) (q : Bytes) (below : Edges T) (old : Option (Leaf T))
      → 0 < fuel
      → find_from fuel (node q below old) [] ≡ ok (Option.map (λ l. l.val) old)
  unfolding find_from
  find_from-end zero q below old lt = absurd (omega arith)
  find_from-end (suc fuel) q below old lt = refl

  -- `Find` of the label of an edge of the root.
  pub find-once :
      (prefix : Bytes) (es : Edges T) (leaf : Option (Leaf T)) (size : ℤ) (c : ℕ) (s q : Bytes)
      (below : Edges T) (old : Option (Leaf T))
      → IsRising 0 es
      → pick es c ≡ some (c ∷ s, node q below old)
      → find (tree prefix es leaf size) (c ∷ s) ≡ ok (Option.map (λ l. l.val) old)
  find-once prefix es leaf size c s q below old h e =
      find-pick prefix es leaf size h c s
      ∙ rw (e, common_self (c ∷ s), drop-all s)
          (find_from-end (suc (length s)) q below old (omega arith))
