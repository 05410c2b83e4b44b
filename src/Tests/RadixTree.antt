-- ===== src/Tests/RadixTree.antt =====
-- The radix tree of db/rax.go at concrete keys.
use go_mock_redis.Base.{ℕ, ◌≡◌, refl, ok, none, some, [], ◌∷◌, arith, Bytes, Returns, true, inl}
use go_mock_redis.Base.Tests.{bytes_eq}
use go_mock_redis.Base.Signed.{pos}
use go_mock_redis.Db.RadixTree.{Leaf, node, Edges, no_edges, edge}
use go_mock_redis.Db.RadixTree.Operations.{insert, find, find_from}
use go_mock_redis.Db.RadixTree.Search.{IsRising, step, pick, find_from-pick}
use go_mock_redis.Db.RadixTree.Keys.{tree, HasNew, insert-HasNew}
use go_mock_redis.Db.RadixTree.Keys.Misplaced.{insert-longer}
use go_mock_redis.Db.RadixTree.Split.{IsSplit, insert-IsSplit}
use go_mock_redis.Db.RadixTree.Delete.{delete}
use go_mock_redis.Db.RadixTree.Delete.Lost.{IsCleared, delete-IsCleared, delete-both}

abbrev leaf_of_key : Bytes → ℕ → Leaf ℕ
leaf_of_key key val = record { key = key; val = val }

-- The keys `abc` and `b`.
abbrev two_edges : Edges ℕ
two_edges =
    edge (97 ∷ 98 ∷ 99 ∷ [])
      (node (97 ∷ 98 ∷ 99 ∷ []) no_edges (some (leaf_of_key (97 ∷ 98 ∷ 99 ∷ []) 1)))
      (edge (98 ∷ []) (node (98 ∷ []) no_edges (some (leaf_of_key (98 ∷ []) 2))) no_edges)

two_edges-IsRising : IsRising 0 two_edges
two_edges-IsRising = (omega arith, omega arith, (omega arith, omega arith, tt))

-- `abd` parts from `abc`.
insert-IsSplit_example : Returns (insert (tree [] two_edges none (pos 2)) (97 ∷ 98 ∷ 100 ∷ []) 3) (
    IsSplit [] two_edges none
      (pos 2)
      two_edges-IsRising
      97
      (97 ∷ 98 ∷ 99 ∷ [])
      (97 ∷ 98 ∷ 100 ∷ [])
      3)
unfolding pick
insert-IsSplit_example =
    insert-IsSplit [] two_edges none (pos 2) two_edges-IsRising 97 99 100 (98 ∷ []) [] [] [] 3
      no_edges (some (leaf_of_key (97 ∷ 98 ∷ 99 ∷ []) 1)) refl refl

insert-HasNew_example :
    Returns
      (insert (tree [] two_edges none (pos 2)) (99 ∷ 100 ∷ []) 3)
      (HasNew [] two_edges none (pos 2) two_edges-IsRising 99 (100 ∷ []) 3)
unfolding pick
insert-HasNew_example =
    insert-HasNew [] two_edges none (pos 2) two_edges-IsRising 99 (100 ∷ []) 3 refl

find_from-pick_example :
    find_from 2 (node [] two_edges none) (98 ∷ []) ≡ step 1 (98 ∷ []) (pick two_edges 98)
find_from-pick_example = find_from-pick 1 [] two_edges none 98 [] two_edges-IsRising

-- What `Delete` of `abc` leaves of `abc`, `abd` and the empty key: the label stays shorter.
abbrev merged_edge : Edges ℕ
merged_edge =
    edge (97 ∷ 98 ∷ [])
      (node (97 ∷ 98 ∷ 100 ∷ []) no_edges (some (leaf_of_key (97 ∷ 98 ∷ 100 ∷ []) 2))) no_edges

-- The tree of the three keys, what `Delete` makes of it, and what `Find` gives for `abd` then.
abbrev forked_edge : Edges ℕ
forked_edge =
    edge (97 ∷ 98 ∷ [])
      (node (97 ∷ 98 ∷ [])
        (edge (99 ∷ []) (node (99 ∷ []) no_edges (some (leaf_of_key (97 ∷ 98 ∷ 99 ∷ []) 1))) (
          edge (100 ∷ []) (node (100 ∷ []) no_edges (some (leaf_of_key (97 ∷ 98 ∷ 100 ∷ []) 2)))
            no_edges))
        none)
      no_edges

delete_abc :
    delete (tree [] forked_edge (some (leaf_of_key [] 7)) (pos 3)) (97 ∷ 98 ∷ 99 ∷ [])
    ≡ ok (tree [] merged_edge (some (leaf_of_key [] 7)) (pos 2), true)
unfolding delete bytes_eq
delete_abc = refl

find_abd :
    find (tree [] merged_edge (some (leaf_of_key [] 7)) (pos 2)) (97 ∷ 98 ∷ 100 ∷ []) ≡ ok none
unfolding find
find_abd = refl

merged_edge-IsRising : IsRising 0 merged_edge
merged_edge-IsRising = (omega arith, omega arith, tt)

delete-IsCleared_example :
    Returns
      (delete (tree [] merged_edge (some (leaf_of_key [] 7)) (pos 2)) (97 ∷ 98 ∷ []))
      (IsCleared [] merged_edge (some (leaf_of_key [] 7)) (pos 2) merged_edge-IsRising 97)
unfolding pick
delete-IsCleared_example =
    delete-IsCleared [] merged_edge (some (leaf_of_key [] 7)) (pos 2) merged_edge-IsRising 97
      (98 ∷ []) (100 ∷ []) no_edges (leaf_of_key (97 ∷ 98 ∷ 100 ∷ []) 2) refl
      (inl (leaf_of_key [] 7, refl))

delete-both_example :
    (find (tree [] two_edges none (pos 2)) (97 ∷ 98 ∷ 99 ∷ []) ≡ ok (some 1))
    × Returns
        (delete (tree [] two_edges none (pos 2)) (98 ∷ []))
        (λ r. (r.1 ≡ true) × (find r.0 (97 ∷ 98 ∷ 99 ∷ []) ≡ ok none))
unfolding pick
delete-both_example =
    delete-both [] two_edges (pos 2) 98 97 [] [] (98 ∷ 99 ∷ []) (97 ∷ 98 ∷ 99 ∷ []) no_edges
      (leaf_of_key (98 ∷ []) 2) (leaf_of_key (97 ∷ 98 ∷ 99 ∷ []) 1) two_edges-IsRising refl refl
      refl refl

-- `bcd` behind `b`.
insert-longer_example :
    Returns (insert (tree [] two_edges none (pos 2)) (98 ∷ 99 ∷ 100 ∷ []) 3) (λ r.
      HasNew [] two_edges none (pos 2) two_edges-IsRising 99 (100 ∷ []) 3 r
      × (find r.0 (98 ∷ 99 ∷ 100 ∷ []) ≡ ok none))
unfolding pick
insert-longer_example =
    insert-longer [] two_edges none (pos 2) two_edges-IsRising 98 99 [] (100 ∷ []) 3
      (leaf_of_key (98 ∷ []) 2) refl refl
