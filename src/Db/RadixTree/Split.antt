-- ===== src/Db/RadixTree/Split.antt =====
-- `Insert` of db/rax.go for a key that parts from the label of an edge of the root behind their first
-- bytes: the edge is split.
use mathlib.Core.Option
use go_mock_redis.Base.Signed.{ℤ, increment}
use go_mock_redis.Base.{
  ℕ, zero, suc, ◌+◌, ◌<◌, ◌≡◌, refl, sym, ◌∙◌, inl, inr, Bool, true, false, Option, none, some, [],
  ◌∷◌, ◌++◌, arith, ltb, ◌==◌, ==_refl, if◌then◌else◌, Bool-cases, Bytes, length, length-append,
  drop-append_length, ok, Returns, ◌>>=◌,
}
use go_mock_redis.Db.RadixTree.{
  Leaf, Tree, node, Edges, no_edges, edge, RaxTree, longest_common_prefix, compare_bytes,
  has_prefix, nth, add_edge_by_idx, update_edge, closest_probe, closest_from,
  find_closest_prefix_index, add_edge,
}
use go_mock_redis.Db.RadixTree.Operations.{
  leaf_node, split_node, insert_at, insert_from, insert, find,
}
use go_mock_redis.Db.RadixTree.Sorted.{first}
use go_mock_redis.Db.RadixTree.Search.{IsRising-weaken, IsRising, at_least, pick, find_from-pick}
use go_mock_redis.Db.RadixTree.Keys.{
  find_from-end, find-once, tree, walk_edge-pick, find-pick, common_self, common-append,
  common-longer, drop-all,
}

common-parted :
    (s : Bytes) (a b : ℕ) (r t : Bytes)
    → (a == b) ≡ false
    → longest_common_prefix (s ++ (a ∷ r)) (s ++ (b ∷ t)) ≡ s
unfolding longest_common_prefix
common-parted [] a b r t ne = rw ne refl
common-parted (x ∷ s) a b r t ne = rw (==_refl x, common-parted s a b r t ne) refl

module _ {T : Type 0} where
  -- Two edges with different first bytes.
  record Pair (a b : ℕ) (r t : Bytes) (old new : Tree T) (es : Edges T) : Type 0 where
    rises : IsRising 0 es
    at_old : pick es a ≡ some (a ∷ r, old)
    at_new : pick es b ≡ some (b ∷ t, new)

  add_edge-Pair :
      (a b : ℕ) (r t : Bytes) (old new : Tree T)
      → (a == b) ≡ false
      → Returns (add_edge (edge (a ∷ r) old no_edges) (b ∷ t) new) (Pair a b r t old new)
  unfolding add_edge find_closest_prefix_index closest_from closest_probe compare_bytes has_prefix
      add_edge_by_idx pick
  add_edge-Pair a b r t old new ne =
      let ne' : (b == a) ≡ false = ground arith in
      elim (Bool-cases (ltb a b)) [
        | inl below ↦ (
          edge (a ∷ r) old (edge (b ∷ t) new no_edges),
          rw (below, ne, ne') refl,
          record {
            rises = (omega arith, omega arith, (ground arith, omega arith, tt));
            at_old = rw (==_refl a) refl;
            at_new = rw (ne, ==_refl b) refl;
          },
        )
        | inr above ↦
            let below : ltb b a ≡ true = ground arith in
            (
              edge (b ∷ t) new (edge (a ∷ r) old no_edges),
              rw (above, below, ne, ne') refl,
              record {
                rises = (omega arith, omega arith, (ground arith, omega arith, tt));
                at_old = rw (ne', ==_refl a) refl;
                at_new = rw (==_refl b) refl;
              },
            )
      ]

  add_edge-alone : (l : Bytes) (n : Tree T) → add_edge no_edges l n ≡ ok (edge l n no_edges)
  unfolding add_edge find_closest_prefix_index closest_from add_edge_by_idx
  add_edge-alone l n = refl

  split_node-Pair :
      (key s : Bytes) (a b : ℕ) (r t : Bytes) (val : T) (below : Edges T) (old : Option (Leaf T))
      → (a == b) ≡ false
      → (both : Edges T) × (split_node key (s ++ (b ∷ t)) val s (node (s ++ (a ∷ r)) below old)
          ≡ ok (node s both none))
        × Pair a b r t (node (a ∷ r) below old) (leaf_node (b ∷ t) key val) both
  unfolding split_node
  split_node-Pair key s a b r t val below old ne =
      let (both, run, pair) =
        add_edge-Pair a b r t (node (a ∷ r) below old) (leaf_node (b ∷ t) key val) ne in
      let rest_left : (length (b ∷ t) == 0) ≡ false = ground arith in
      (
        both,
        rw (drop-append_length, add_edge-alone, ◌>>=◌, drop-append_length, run, rest_left) refl,
        pair,
      )

  -- The edges with another node, and another label of the same first byte, at one of them.
  update_edge-pick :
      (lo : ℕ) (es : Edges T) (i c : ℕ) (l m : Bytes) (n : Tree T) (both : Edges T)
      (leaf : Option (Leaf T))
      → IsRising lo es
      → nth es i ≡ some (l, n)
      → first l ≡ c
      → Returns (update_edge es i (node (c ∷ m) both leaf)) (λ es'.
        IsRising lo es'
        × ((d : ℕ)
            → pick es' d ≡ (if c == d then some (c ∷ m, node (c ∷ m) both leaf) else pick es d)))
  unfolding update_edge pick
  update_edge-pick lo no_edges i c l m n both leaf h e f = cc
  update_edge-pick lo (edge q k es) zero c l m n both leaf h e f =
      let same : first q ≡ c = cc in
      (
        _,
        refl,
        (
          (
            omega (arith, same, h.0),
            omega arith,
            IsRising-weaken (c + 1) (first q + 1) es (omega (arith, same)) h.2,
          ),
          λ d. elim (Bool-cases (c == d)) [
            | inl y ↦ rw (same, y) refl
            | inr other ↦ rw (same, other) refl
          ],
        ),
      )
  update_edge-pick lo (edge q k es) (suc i) c l m n both leaf h e f =
      let above = at_least (first q + 1) es i l n h.2 e in
      let (es', run, (rises, picks)) =
        update_edge-pick (first q + 1) es i c l m n both leaf h.2 e f in
      (edge q k es', rw run refl, ((h.0, h.1, rises), λ d. ground (arith, picks d)))

module _ {T : Type 0} (prefix : Bytes) (es : Edges T) (leaf : Option (Leaf T)) (size : ℤ)
    (h : IsRising 0 es) where
  -- The new key has the value, the label keeps its own, and so do the keys that begin otherwise.
  abbrev pub IsSplit : (c : ℕ) → (label key : Bytes) → T → RaxTree T × Bool → Type 0
  IsSplit c label key val r =
      (r.1 ≡ true)
      × (r.0.size ≡ increment size)
      × (find r.0 key ≡ ok (some val))
      × (find r.0 label ≡ find (tree prefix es leaf size) label)
      × ((d : ℕ) (q : Bytes)
          → (c == d) ≡ false
          → find r.0 (d ∷ q) ≡ find (tree prefix es leaf size) (d ∷ q))

  -- A round of `Insert` that splits an edge, to a node whose prefix begins with the label.
  insert-split_run :
      (c a b : ℕ) (m r x t : Bytes) (val : T) (below : Edges T) (old : Option (Leaf T))
      → pick es c ≡ some ((c ∷ m) ++ (a ∷ r), node ((c ∷ m) ++ (a ∷ (r ++ x))) below old)
      → (a == b) ≡ false
      → (es' both : Edges T) × (insert (tree prefix es leaf size) ((c ∷ m) ++ (b ∷ t)) val
          ≡ ok (tree prefix es' leaf (increment size), true))
        × IsRising 0 es'
        × ((d : ℕ)
            → pick es' d ≡ (if c == d then some (c ∷ m, node (c ∷ m) both none) else pick es d))
        × Pair a b
            (r ++ x)
            t
            (node (a ∷ (r ++ x)) below old)
            (leaf_node (b ∷ t) ((c ∷ m) ++ (b ∷ t)) val)
            both
  unfolding insert insert_from insert_at
  insert-split_run c a b m r x t val below old e ne =
      let key = (c ∷ m) ++ (b ∷ t) in
      let (i, run, at) =
        walk_edge-pick es c (m ++ (b ∷ t)) ((c ∷ m) ++ (a ∷ r))
          (node ((c ∷ m) ++ (a ∷ (r ++ x))) below old) h e in
      let (both, split, pair) = split_node-Pair key (c ∷ m) a b (r ++ x) t val below old ne in
      let (es', update, (rises, picks)) =
        update_edge-pick 0 es i c ((c ∷ m) ++ (a ∷ r)) m
          (node ((c ∷ m) ++ (a ∷ (r ++ x))) below old) both none h at refl in
      let shorter : (length (c ∷ m) == length ((c ∷ m) ++ (a ∷ (r ++ x)))) ≡ false =
        ground (arith, length-append (c ∷ m) (a ∷ (r ++ x))) in
      (
        es',
        both,
        rw (run, ◌>>=◌, common-parted (c ∷ m) a b r t ne, insert_at, shorter, split, update) refl,
        rises,
        picks,
        pair,
      )

module _ {T : Type 0} where
  -- A key at two edges in a row.
  find-twice :
      (prefix : Bytes) (es both : Edges T) (leaf inner : Option (Leaf T)) (size : ℤ) (c x : ℕ)
      (m u l q : Bytes) (below : Edges T) (old : Option (Leaf T))
      → IsRising 0 es
      → IsRising 0 both
      → pick es c ≡ some (c ∷ m, node (c ∷ m) both inner)
      → pick both x ≡ some (l, node q below old)
      → longest_common_prefix l (x ∷ u) ≡ x ∷ u
      → find (tree prefix es leaf size) ((c ∷ m) ++ (x ∷ u)) ≡ ok (Option.map (λ l. l.val) old)
  find-twice prefix es both leaf inner size c x m u l q below old h k e f share =
      let enough : 0 < length (m ++ (x ∷ u)) = omega (arith, length-append m (x ∷ u)) in
      find-pick prefix es leaf size h c (m ++ (x ∷ u))
      ∙ rw (e, common-longer (c ∷ m) (x ∷ u), drop-append_length)
          (find_from-pick (length (m ++ (x ∷ u))) (c ∷ m) both inner x u k
            ∙ rw (f, share, drop-all u) (find_from-end (length (m ++ (x ∷ u))) q below old enough))

module _ {T : Type 0} (prefix : Bytes) (es : Edges T) (leaf : Option (Leaf T)) (size : ℤ)
    (h : IsRising 0 es) where
  -- `Insert` of a key that parts from the label of an edge of the root behind one common byte or
  -- more splits this edge: it reports a new key and counts it, `Find` gives the new value for the
  -- key, and for the label and every key with another first byte it gives what it gave before,
  -- provided that the labels of the root are not empty and their first bytes rise, and that the
  -- prefix of the node below the edge begins with the label.
  pub insert-IsSplit :
      (c a b : ℕ) (m r x t : Bytes) (val : T) (below : Edges T) (old : Option (Leaf T))
      → pick es c ≡ some ((c ∷ m) ++ (a ∷ r), node ((c ∷ m) ++ (a ∷ (r ++ x))) below old)
      → (a == b) ≡ false
      → Returns
          (insert (tree prefix es leaf size) ((c ∷ m) ++ (b ∷ t)) val)
          (IsSplit prefix es leaf size h c ((c ∷ m) ++ (a ∷ r)) ((c ∷ m) ++ (b ∷ t)) val)
  insert-IsSplit c a b m r x t val below old e ne =
      let (es', both, run, rises, picks, pair) =
        insert-split_run prefix es leaf size h c a b m r x t val below old e ne in
      let at_c : pick es' c ≡ some (c ∷ m, node (c ∷ m) both none) =
        picks c ∙ rw (==_refl c) refl in
      let twice = find-twice prefix es' both leaf none (increment size) c in
      (
        _,
        run,
        (
          refl,
          refl,
          twice b m t (b ∷ t) (b ∷ t) no_edges
              (some (record { key = (c ∷ m) ++ (b ∷ t); val = val })) rises pair.rises at_c
              pair.at_new (common_self (b ∷ t)),
          twice a m r (a ∷ (r ++ x)) (a ∷ (r ++ x)) below old rises pair.rises at_c pair.at_old
                (common-append (a ∷ r) x)
              ∙ sym (
                  find-once prefix es leaf size c (m ++ (a ∷ r)) ((c ∷ m) ++ (a ∷ (r ++ x))) below
                    old h e),
          λ d q differ.
              find-pick prefix es' leaf (increment size) rises d q
              ∙ rw (picks d, differ) refl
              ∙ sym (find-pick prefix es leaf size h d q),
        ),
      )
