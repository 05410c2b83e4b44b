-- ===== src/Db/LinkedList.antt =====
-- db/dlist.go: a doubly linked list over a store of nodes. A pointer is an address, none for nil.
pub mod Cursor
pub mod Remove
pub mod Insert
pub mod Iterate
use go_mock_redis.Base.{
  ℕ, zero, suc, ◌+◌, Bool, true, false, Option, none, some, ◌==◌, if◌then◌else◌, Run, ok, fault,
  nil_pointer,
}
use go_mock_redis.Base.Signed.{ℤ, pos, negsuc, increment, decrement}

abbrev pub Pointer : Type 0
Pointer = Option ℕ

-- `ListNode`
pub record ListNode (T : Type 0) : Type 0 where
  pub prev : Pointer
  pub next : Pointer
  pub value : T

-- The nodes, and the address of the next one.
pub record Store (T : Type 0) : Type 0 where
  pub node : ℕ → ListNode T
  pub fresh : ℕ

-- `List`
pub record LinkedList : Type 0 where
  pub head : Pointer
  pub tail : Pointer
  pub length : ℤ

pub data Direction : Type 0 where
  direction_head direction_tail : Direction

-- `ListIter`
pub record ListIter : Type 0 where
  pub next : Pointer
  pub direction : Direction

unfoldable pub new_list : LinkedList
new_list = record { head = none; tail = none; length = pos 0 }

-- `Empty` and `Release`: the loop over the nodes changes nothing.
unfoldable pub empty : LinkedList → LinkedList
empty l = record l { head = none; tail = none; length = pos 0 }

unfoldable pub length : LinkedList → ℤ
length l = l.length

unfoldable pub new_list_iterator : LinkedList → Direction → ListIter
new_list_iterator l direction_head = record { next = l.head; direction = direction_head }
new_list_iterator l direction_tail = record { next = l.tail; direction = direction_tail }

unfoldable pub rewind : ListIter → LinkedList → ListIter
rewind i l = record i {
  next = elim i.direction [ direction_head ↦ l.head | direction_tail ↦ l.tail ];
}

module _ {T : Type 0} where
  unfoldable pub put : Store T → ℕ → ListNode T → Store T
  put s a n = record s { node = λ b. if b == a then n else s.node b }

  -- `a.Next = p` and `a.Prev = p`
  unfoldable pub set_next : Store T → ℕ → Pointer → Store T
  unfolding put
  set_next s a p = put s a (record (s.node a) { next = p })

  unfoldable pub set_prev : Store T → ℕ → Pointer → Store T
  unfolding put
  set_prev s a p = put s a (record (s.node a) { prev = p })

  -- `&ListNode[T]{...}`, at the address `s.fresh`.
  unfoldable pub alloc : Store T → ListNode T → Store T
  unfolding put
  alloc s n = record (put s s.fresh n) { fresh = suc s.fresh }

  abbrev pub cell : Pointer → Pointer → T → ListNode T
  cell p q v = record { prev = p; next = q; value = v }

  unfoldable pub add_node_head : LinkedList → Store T → T → LinkedList × Store T
  unfolding alloc set_prev
  add_node_head l s v = elim l.head [
    | none ↦ (
      record { head = some s.fresh; tail = some s.fresh; length = increment l.length },
      alloc s (cell none none v),
    )
    | some h ↦ (
      record l { head = some s.fresh; length = increment l.length },
      set_prev (alloc s (cell none (some h) v)) h (some s.fresh),
    )
  ]

  unfoldable pub add_node_tail : LinkedList → Store T → T → LinkedList × Store T
  unfolding alloc set_next
  add_node_tail l s v = elim l.tail [
    | none ↦ (
      record { head = some s.fresh; tail = some s.fresh; length = increment l.length },
      alloc s (cell none none v),
    )
    | some t ↦ (
      record l { tail = some s.fresh; length = increment l.length },
      set_next (alloc s (cell (some t) none v)) t (some s.fresh),
    )
  ]

  -- `InsertNode` behind a node. The node that is allocated first is dropped where the list ends.
  unfoldable pub insert_after : LinkedList → Store T → ℕ → T → LinkedList × Store T
  unfolding alloc add_node_tail set_next set_prev
  insert_after l s old v =
      let s1 = alloc s (cell none none v) in
      elim (s.node old).next [
        | none ↦ add_node_tail l s1 v
        | some q ↦ (
          record l { length = increment l.length },
          set_prev (set_next (put s1 s.fresh (cell (some old) (some q) v)) old (some s.fresh)) q
              (some s.fresh),
        )
      ]

  -- `InsertNode` in front of a node: `node.Prev.Next` on the left is read while `node.Prev` is nil.
  unfoldable pub insert_before : LinkedList → Store T → ℕ → T → Run (LinkedList × Store T)
  unfolding alloc add_node_head
  insert_before l s old v =
      let s1 = alloc s (cell none none v) in
      elim (s.node old).prev [ none ↦ ok (add_node_head l s1 v) | some p ↦ fault nil_pointer ]

  unfoldable pub insert_node : LinkedList → Store T → ℕ → T → Bool → Run (LinkedList × Store T)
  unfolding insert_after insert_before
  insert_node l s old v true = ok (insert_after l s old v)
  insert_node l s old v false = insert_before l s old v

  unfoldable pub unlink_prev : LinkedList → Store T → (prev next : Pointer) → LinkedList × Store T
  unfolding set_next
  unlink_prev l s (some p) q = (l, set_next s p q)
  unlink_prev l s none q = (record l { head = q }, s)

  unfoldable pub unlink_next : LinkedList → Store T → (prev next : Pointer) → LinkedList × Store T
  unfolding set_prev
  unlink_next l s p (some q) = (l, set_prev s q p)
  unlink_next l s p none = (record l { tail = p }, s)

  unfoldable pub remove_node : LinkedList → Store T → ℕ → LinkedList × Store T
  unfolding unlink_prev unlink_next put
  remove_node l s a =
      let (l1, s1) = unlink_prev l s (s.node a).prev (s.node a).next in
      let (l2, s2) = unlink_next l1 s1 (s1.node a).prev (s1.node a).next in
      (
        record l2 { length = decrement l2.length },
        put s2 a (record (s2.node a) { next = none; prev = none }),
      )

  unfoldable pub next_node : Store T → ListIter → Pointer × ListIter
  next_node s i = elim i.next [
    | none ↦ (none, i)
    | some a ↦ (
      some a,
      record i {
        next = elim i.direction [
          | direction_head ↦ (s.node a).next
          | direction_tail ↦ (s.node a).prev
        ];
      },
    )
  ]
