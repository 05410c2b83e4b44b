-- ===== src/Db/LinkedList/Iterate.antt =====
-- The iterators of db/dlist.go walk the sequence from either end.
use go_mock_redis.Base.{ℕ, zero, suc, ◌≡◌, refl, none, some, List, [], ◌∷◌}
use mathlib.Core.List.{reverse_aux}
use go_mock_redis.Db.LinkedList.{
  Pointer, Store, LinkedList, Direction, direction_head, direction_tail, ListIter,
  new_list_iterator, next_node,
}
use go_mock_redis.Db.LinkedList.Cursor.{first, Front, Back, IsAt, move_back, move_front}

-- `NextNode` so many times: the nodes that it gave, and the iterator.
unfoldable pub walk : {T : Type 0} → ℕ → Store T → ListIter → List Pointer × ListIter
unfolding next_node
walk zero s i = ([], i)
walk (suc n) s i = let (p, i1) = next_node s i in let (ps, i2) = walk n s i1 in (p ∷ ps, i2)

-- The nodes, and nil behind the last.
abbrev pub visits : List ℕ → List Pointer
visits [] = none ∷ []
visits (a ∷ more) = some a ∷ visits more

abbrev pub rounds : List ℕ → ℕ
rounds [] = 1
rounds (a ∷ more) = suc (rounds more)

abbrev at_pointer : Pointer → Direction → ListIter
at_pointer p d = record { next = p; direction = d }

module _ {T : Type 0} (s : Store T) where
  walk-Back :
      (rs : List ℕ) (p : Pointer)
      → Back s p rs
      → (walk (rounds rs) s (at_pointer (first none rs) direction_head)).0 ≡ visits rs
  unfolding walk next_node
  walk-Back [] p h = refl
  walk-Back (a ∷ rs) p h = rw (h.1, walk-Back rs (some a) h.2) refl

  walk-Front :
      (ls : List ℕ) (q : Pointer)
      → Front s ls q
      → (walk (rounds ls) s (at_pointer (first none ls) direction_tail)).0 ≡ visits ls
  unfolding walk next_node
  walk-Front [] q h = refl
  walk-Front (a ∷ ls) q h = rw (h.1, walk-Front ls (some a) h.2) refl

module _ {T : Type 0} (l : LinkedList) (s : Store T) where
  all_back : (ls rs : List ℕ) → IsAt l s ls rs → IsAt l s [] (reverse_aux ls rs)
  all_back [] rs h = h
  all_back (a ∷ ls) rs h = all_back ls (a ∷ rs) (move_back l s a ls rs h)

  all_front : (rs ls : List ℕ) → IsAt l s ls rs → IsAt l s (reverse_aux rs ls) []
  all_front [] ls h = h
  all_front (a ∷ rs) ls h = all_front rs (a ∷ ls) (move_front l s a ls rs h)

  from_head :
      (rs : List ℕ)
      → IsAt l s [] rs
      → (walk (rounds rs) s (new_list_iterator l direction_head)).0 ≡ visits rs
  unfolding new_list_iterator
  from_head rs h = rw h.starts (walk-Back s rs none h.back)

  from_tail :
      (ls : List ℕ)
      → IsAt l s ls []
      → (walk (rounds ls) s (new_list_iterator l direction_tail)).0 ≡ visits ls
  unfolding new_list_iterator
  from_tail ls h = rw h.ends (walk-Front s ls none h.front)

  -- An iterator from the head of a doubly linked list gives its nodes in order and then nil, one
  -- from the tail gives them in reverse order and then nil.
  pub walk-IsAt :
      (rs : List ℕ)
      → IsAt l s [] rs
      → ((walk (rounds rs) s (new_list_iterator l direction_head)).0 ≡ visits rs)
        × ((walk (rounds (reverse_aux rs [])) s (new_list_iterator l direction_tail)).0
            ≡ visits (reverse_aux rs []))
  walk-IsAt rs h = (from_head rs h, from_tail (reverse_aux rs []) (all_front rs [] h))
