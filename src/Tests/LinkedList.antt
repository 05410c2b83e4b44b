-- ===== src/Tests/LinkedList.antt =====
-- The list of db/dlist.go at concrete nodes.
use go_mock_redis.Base.{
  ℕ, ◌≡◌, refl, true, none, some, [], ◌∷◌, arith, if◌then◌else◌, ◌==◌, Returns,
}
use mathlib.Core.List.{reverse_aux}
use go_mock_redis.Base.Signed.{pos}
use go_mock_redis.Db.LinkedList.{
  Store, LinkedList, cell, direction_head, direction_tail, new_list_iterator, remove_node,
  insert_node,
}
use go_mock_redis.Db.LinkedList.Cursor.{IsAt, KeepsValues, move_front}
use go_mock_redis.Db.LinkedList.Insert.Between.{Inserts, InFront, insert_node-cases}
use go_mock_redis.Db.LinkedList.Iterate.{walk, visits, rounds, walk-IsAt}
use go_mock_redis.Db.LinkedList.Remove.{remove_node-IsAt}

-- Nodes 0, 1 and 2 in a row.
abbrev row : LinkedList
row = record { head = some 0; tail = some 2; length = pos 3 }

abbrev row_store : Store ℕ
row_store = record {
  node = λ a.
      if a == 0
      then cell none (some 1) 7
      else if a == 1
      then cell (some 0) (some 2) 8
      else cell (some 1) none 9;
  fresh = 3;
}

row-IsAt : IsAt row row_store [] (0 ∷ 1 ∷ 2 ∷ [])
row-IsAt = record {
  front = tt;
  back = (refl, refl, (refl, refl, (refl, refl, tt)));
  starts = refl;
  ends = refl;
  counted = refl;
  distinct_front = tt;
  distinct_back = ((refl, (refl, tt)), ((refl, tt), (tt, tt)));
  apart = tt;
  below_front = tt;
  below_back = (omega arith, (omega arith, (omega arith, tt)));
}

second-IsAt : IsAt row row_store (0 ∷ []) (1 ∷ 2 ∷ [])
second-IsAt = move_front row row_store 0 [] (1 ∷ 2 ∷ []) row-IsAt

end-IsAt : IsAt row row_store (2 ∷ 1 ∷ 0 ∷ []) []
end-IsAt =
    move_front row row_store 2 (1 ∷ 0 ∷ []) []
      (move_front row row_store 1 (0 ∷ []) (2 ∷ []) second-IsAt)

remove_node-IsAt_example :
    IsAt (remove_node row row_store 1).0 (remove_node row row_store 1).1 (0 ∷ []) (2 ∷ [])
    × KeepsValues row_store (remove_node row row_store 1).1
remove_node-IsAt_example = remove_node-IsAt row row_store 1 (0 ∷ []) (2 ∷ []) second-IsAt

insert_node-cases_example :
    Returns
      (insert_node row row_store 1 5 true)
      (λ result. Inserts row row_store 1 5 result (1 ∷ 0 ∷ []) (2 ∷ []))
    × InFront row row_store 1 5 (0 ∷ []) (2 ∷ [])
insert_node-cases_example = insert_node-cases row row_store 1 5 (0 ∷ []) (2 ∷ []) second-IsAt

walk-IsAt_example :
    ((walk (rounds (0 ∷ 1 ∷ 2 ∷ [])) row_store (new_list_iterator row direction_head)).0
      ≡ visits (0 ∷ 1 ∷ 2 ∷ []))
    × ((walk
          (rounds (reverse_aux (0 ∷ 1 ∷ 2 ∷ []) []))
          row_store
          (new_list_iterator row direction_tail)).0
        ≡ visits (reverse_aux (0 ∷ 1 ∷ 2 ∷ []) []))
walk-IsAt_example = walk-IsAt row row_store (0 ∷ 1 ∷ 2 ∷ []) row-IsAt
