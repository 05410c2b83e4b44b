-- ===== src/Db/RadixTree/Delete/Lost.antt =====
-- `Delete` of db/rax.go for the label of an edge of the root, and the merge behind it.
use go_mock_redis.Base.Signed.{ℤ, decrement}
use go_mock_redis.Base.{
  ℕ, zero, suc, ◌+◌, ◌<◌, ◌≡◌, ◌≢◌, ◌⊎◌, refl, sym, ap, ◌∙◌, inl, inr, Bool, true, false, Option,
  none, some, [], ◌∷◌, ◌++◌, arith, ◌==◌, ==_refl, if◌then◌else◌, Bool-cases, Bytes, bytes_eq, ok,
  Returns, ◌>>=◌,
}
use go_mock_redis.Db.RadixTree.{
  Leaf, Tree, node, Edges, no_edges, edge, RaxTree, count, nth, has_prefix,
}
use go_mock_redis.Db.RadixTree.Operations.{find}
use go_mock_redis.Db.RadixTree.Sorted.{first}
use go_mock_redis.Db.RadixTree.Search.{IsRising-weaken, IsRising, at_least, pick}
use go_mock_redis.Db.RadixTree.Keys.{
  common_self, drop-all, find-once, tree, walk_edge-pick, find-pick,
}
use go_mock_redis.Db.RadixTree.Delete.{
  remove_edge_by_idx, merge, unlink, delete_at, delete_from, deleted, delete,
}

has_prefix-append : (s x : Bytes) → has_prefix (s ++ x) s ≡ true
unfolding has_prefix
has_prefix-append [] x = refl
has_prefix-append (a ∷ s) x = rw (==_refl a) (has_prefix-append s x)

swap_tests :
    {A : Type 0}
    → (m l d : ℕ) (a r p : Option A) → p ≡ (if l == d then none else r)
    → (m == l) ≡ false
    → (if m == d then a else p) ≡ (if l == d then none else (if m == d then a else r))
swap_tests m l d a r p e f = ground arith

module _ {T : Type 0} where
  pick-below : (lo : ℕ) (es : Edges T) (d : ℕ) → IsRising lo es → d < lo → pick es d ≡ none
  unfolding pick
  pick-below lo no_edges d h lt = refl
  pick-below lo (edge l n es) d h lt =
      let other : (first l == d) ≡ false = ground arith in
      rw other (pick-below (first l + 1) es d h.2 (omega arith))

  -- The edges without one of them.
  record Without (lo : ℕ) (es : Edges T) (i : ℕ) (l : Bytes) : Type 0 where
    left : Edges T
    runs : remove_edge_by_idx es i ≡ ok left
    rises : IsRising lo left
    fewer : count es ≡ suc (count left)
    picks : (d : ℕ) → pick left d ≡ (if first l == d then none else pick es d)

  remove-Without :
      (lo : ℕ) (es : Edges T) (i : ℕ) (l : Bytes) (n : Tree T)
      → IsRising lo es
      → nth es i ≡ some (l, n)
      → Without lo es i l
  unfolding remove_edge_by_idx pick
  remove-Without lo no_edges i l n h e = absurd (cc)
  remove-Without lo (edge m k es) zero l n h e = record {
    left = es;
    runs = refl;
    rises = IsRising-weaken lo (first m + 1) es (omega arith) h.2;
    fewer = refl;
    picks = λ d. ground (arith, pick-below (first m + 1) es d h.2);
  }
  remove-Without lo (edge m k es) (suc i) l n h e =
      let w = remove-Without (first m + 1) es i l n h.2 e in
      record {
        left = edge m k w.left;
        runs = rw w.runs refl;
        rises = (h.0, h.1, w.rises);
        fewer = ap suc w.fewer;
        picks = λ d.
            swap_tests (first m) (first l) d (some (m, k)) _ _ (w.picks d)
              (ground (arith, at_least (first m + 1) es i l n h.2 e));
      }

  merge-leaf :
      (prefix : Bytes) (es : Edges T) (lf : Leaf T)
      → merge prefix es (some lf) ≡ node prefix es (some lf)
  unfolding merge
  merge-leaf prefix no_edges lf = refl
  merge-leaf prefix (edge l (node q below old) no_edges) lf = refl
  merge-leaf prefix (edge l (node q below old) (edge m k es)) lf = refl

  merge-edges :
      (prefix : Bytes) (es : Edges T) (leaf : Option (Leaf T))
      → (count es ≡ 1) ⊎ (merge prefix es leaf ≡ node prefix es leaf)
  unfolding merge
  merge-edges prefix no_edges leaf = inr refl
  merge-edges prefix (edge l (node q below old) no_edges) leaf = inl refl
  merge-edges prefix (edge l (node q below old) (edge m k es)) leaf = inr refl

  merge-keeps :
      (prefix : Bytes) (es : Edges T) (leaf : Option (Leaf T))
      → ((lf : Leaf T) × (leaf ≡ some lf)) ⊎ (count es ≢ 1)
      → merge prefix es leaf ≡ node prefix es leaf
  merge-keeps prefix es leaf (inl (lf, e)) = rw e (merge-leaf prefix es lf)
  merge-keeps prefix es leaf (inr ne) = elim (merge-edges prefix es leaf) [
    | inl one ↦ absurd (ne one)
    | inr e ↦ e
  ]

  -- `Delete` of the label of an edge of the root, to a node whose prefix begins with it.
  delete-run :
      (prefix : Bytes) (es : Edges T) (leaf : Option (Leaf T)) (size : ℤ) (c : ℕ) (s x : Bytes)
      (below : Edges T) (lf : Leaf T)
      → IsRising 0 es
      → pick es c ≡ some (c ∷ s, node ((c ∷ s) ++ x) below (some lf))
      → (left : Edges T) × (delete (tree prefix es leaf size) (c ∷ s)
          ≡ ok (record { root = merge prefix left leaf; size = decrement size }, true))
        × IsRising 0 left
        × (count es ≡ suc (count left))
        × ((d : ℕ) → pick left d ≡ (if c == d then none else pick es d))
  unfolding delete delete_from delete_at unlink deleted
  delete-run prefix es leaf size c s x below lf h e =
      let (i, run, at) = walk_edge-pick es c s (c ∷ s) (node ((c ∷ s) ++ x) below (some lf)) h e in
      let w = remove-Without 0 es i (c ∷ s) (node ((c ∷ s) ++ x) below (some lf)) h at in
      (
        w.left,
        elim (Bool-cases (bytes_eq ((c ∷ s) ++ x) (c ∷ s))) [
          | inl same ↦ rw (run, ◌>>=◌, delete_at, same, unlink, w.runs) refl
          | inr longer ↦
              rw
                (
                  run,
                  ◌>>=◌,
                  delete_at,
                  longer,
                  common_self (c ∷ s),
                  has_prefix-append (c ∷ s) x,
                  drop-all s,
                  unlink,
                  w.runs,
                )
                refl
        ],
        w.rises,
        w.fewer,
        w.picks,
      )

  module _ (prefix : Bytes) (es : Edges T) (leaf : Option (Leaf T)) (size : ℤ)
      (h : IsRising 0 es) where
    -- The tree has no key with the first byte, and what it gave for the keys that begin otherwise.
    abbrev pub IsCleared : ℕ → RaxTree T × Bool → Type 0
    IsCleared c r =
        (r.1 ≡ true)
        × (r.0.size ≡ decrement size)
        × ((q : Bytes) → find r.0 (c ∷ q) ≡ ok none)
        × ((d : ℕ) (q : Bytes)
            → (c == d) ≡ false
            → find r.0 (d ∷ q) ≡ find (tree prefix es leaf size) (d ∷ q))

    -- `Delete` of the label of an edge of the root, where the node below has a leaf and a prefix
    -- that begins with the label, reports a deletion and lowers the size by one; behind it `Find`
    -- gives nothing for any key with this first byte, those below the edge too, and for every key
    -- with another first byte what it gave before, provided that the labels of the root are not
    -- empty and their first bytes rise, and that the root has a leaf or not exactly two edges.
    pub delete-IsCleared :
        (c : ℕ) (s x : Bytes) (below : Edges T) (lf : Leaf T)
        → pick es c ≡ some (c ∷ s, node ((c ∷ s) ++ x) below (some lf))
        → ((other : Leaf T) × (leaf ≡ some other)) ⊎ (count es ≢ 2)
        → Returns (delete (tree prefix es leaf size) (c ∷ s)) (IsCleared c)
    delete-IsCleared c s x below lf e keeps =
        let (left, run, rises, fewer, picks) = delete-run prefix es leaf size c s x below lf h e in
        let same =
          merge-keeps prefix left leaf
            (elim keeps [ inl l ↦ inl l | inr ne ↦ inr (λ one. ne (omega arith)) ]) in
        (
          _,
          rw same at run,
          (
            refl,
            refl,
            λ q.
                find-pick prefix left leaf (decrement size) rises c q
                ∙ rw (picks c, ==_refl c) refl,
            λ d q ne.
                find-pick prefix left leaf (decrement size) rises d q
                ∙ rw (picks d, ne) refl
                ∙ sym (find-pick prefix es leaf size h d q),
          ),
        )

  find-no_edges :
      (prefix : Bytes) (leaf : Option (Leaf T)) (size : ℤ) (d : ℕ) (q : Bytes)
      → find (tree prefix no_edges leaf size) (d ∷ q) ≡ ok none
  unfolding pick
  find-no_edges prefix leaf size d q = find-pick prefix no_edges leaf size tt d q

  -- The edge that is left of two.
  last_edge :
      (left : Edges T) (c d : ℕ) (es : Edges T) (p : Bytes × Tree T)
      → count left ≡ 1
      → ((b : ℕ) → pick left b ≡ (if c == b then none else pick es b))
      → (c == d) ≡ false
      → pick es d ≡ some p
      → left ≡ edge p.0 p.1 no_edges
  unfolding pick
  last_edge no_edges c d es p one picks ne e = cc
  last_edge (edge l n (edge m k more)) c d es p one picks ne e = absurd (omega arith)
  last_edge (edge l n no_edges) c d es p one picks ne e =
      let at_d : pick (edge l n no_edges) d ≡ some p = rw ne at (picks d) ∙ e in
      elim (Bool-cases (first l == d)) [ inl y ↦ cc | inr other ↦ cc ]

  -- Where the root has no leaf and two edges, with labels that are not empty and rise in their
  -- first bytes, and below one of them is a node with a leaf and no edges, `Delete` of the other
  -- label, where the node below has a leaf and a prefix that begins with that label, reports a
  -- deletion and loses the first one too: `Find` of the first label gave the value of its leaf
  -- before and gives none behind.
  pub delete-both :
      (prefix : Bytes) (es : Edges T) (size : ℤ) (c d : ℕ) (s x q p : Bytes) (below : Edges T)
      (lf other : Leaf T)
      → IsRising 0 es
      → count es ≡ 2
      → pick es c ≡ some (c ∷ s, node ((c ∷ s) ++ x) below (some lf))
      → (c == d) ≡ false
      → pick es d ≡ some (d ∷ q, node p no_edges (some other))
      → (find (tree prefix es none size) (d ∷ q) ≡ ok (some other.val))
        × Returns
            (delete (tree prefix es none size) (c ∷ s))
            (λ r. (r.1 ≡ true) × (find r.0 (d ∷ q) ≡ ok none))
  unfolding merge
  delete-both prefix es size c d s x q p below lf other h two e ne f =
      let (left, run, rises, fewer, picks) = delete-run prefix es none size c s x below lf h e in
      let one =
        last_edge left c d es (d ∷ q, node p no_edges (some other)) (omega arith) picks ne f in
      (
        find-once prefix es none size d q p no_edges (some other) h f,
        (_, rw one at run, (refl, find-no_edges (prefix ++ p) (some other) (decrement size) d q)),
      )
