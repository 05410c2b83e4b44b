-- ===== src/Db/LinkedList/Insert.antt =====
-- `AddNodeHead`, `AddNodeTail` and `InsertNode` of db/dlist.go put a new node into the sequence.
pub mod Between
use go_mock_redis.Base.{
  ℕ, zero, suc, ◌+◌, ◌<◌, ◌≤◌, ◌≡◌, refl, sym, ap, ◌∙◌, Bool, true, false, Option, none, some, List,
  [], ◌∷◌, arith, ◌==◌, ==_refl, if◌then◌else◌, length, Run, ok, fault, nil_pointer,
}
use go_mock_redis.Base.Signed.{ℤ, pos, increment}
use go_mock_redis.Db.LinkedList.{
  Pointer, ListNode, Store, LinkedList, put, set_next, set_prev, alloc, cell, add_node_head,
  add_node_tail, insert_after, insert_before, insert_node,
}
use go_mock_redis.Db.LinkedList.Cursor.{
  first, last, Avoids, AreDistinct, AreApart, AreBelow, Front, Back, IsAt, KeepsValues, Changes,
  Front-frame, Back-frame, Avoids_sym, AreApart-cons, AreApart-head, AreApart-nil, AreApart-fresh,
  AreBelow-suc, Avoids-fresh, away2, put-value, move_back,
}

module _ {T : Type 0} where
  alloc-Changes : (s : Store T) (n : ListNode T) → Changes (s.fresh ∷ []) s (alloc s n)
  unfolding alloc put
  alloc-Changes s n b d = rw (Avoids_sym b s.fresh d.0) refl

  -- A node that no list holds is no matter.
  pub alloc-IsAt :
      (l : LinkedList) (s : Store T) (n : ListNode T) (ls rs : List ℕ)
      → IsAt l s ls rs
      → IsAt l (alloc s n) ls rs
  unfolding alloc put
  alloc-IsAt l s n ls rs h = record {
    front =
        Front-frame s (alloc s n) (s.fresh ∷ []) ls (first none rs) (alloc-Changes s n)
          (AreApart-fresh s.fresh ls h.below_front) h.front;
    back =
        Back-frame s (alloc s n) (s.fresh ∷ []) rs (first none ls) (alloc-Changes s n)
          (AreApart-fresh s.fresh rs h.below_back) h.back;
    starts = h.starts;
    ends = h.ends;
    counted = h.counted;
    distinct_front = h.distinct_front;
    distinct_back = h.distinct_back;
    apart = h.apart;
    below_front = AreBelow-suc s.fresh ls h.below_front;
    below_back = AreBelow-suc s.fresh rs h.below_back;
  }

  module _ (l : LinkedList) (s : Store T) (v : T) where
    -- `AddNodeTail` behind a last node, and `AddNodeHead` in front of a first.
    abbrev tail_store : ℕ → Store T
    tail_store p = set_next (alloc s (cell (some p) none v)) p (some s.fresh)

    abbrev head_store : ℕ → Store T
    head_store q = set_prev (alloc s (cell none (some q) v)) q (some s.fresh)

    tail-Changes : (p : ℕ) → Changes (p ∷ s.fresh ∷ []) s (tail_store p)
    unfolding alloc set_next put
    tail-Changes p b d = rw (Avoids_sym b p d.0, Avoids_sym b s.fresh d.1.0) refl

    head-Changes : (q : ℕ) → Changes (q ∷ s.fresh ∷ []) s (head_store q)
    unfolding alloc set_prev put
    head-Changes q b d = rw (Avoids_sym b q d.0, Avoids_sym b s.fresh d.1.0) refl

    tail_linked :
        (p : ℕ) (ls : List ℕ)
        → IsAt l s (p ∷ ls) []
        → IsAt
            (record l { tail = some s.fresh; length = increment l.length })
            (tail_store p)
            (s.fresh ∷ p ∷ ls)
            []
    unfolding alloc set_next put
    tail_linked p ls h =
        let new = Avoids-fresh s.fresh (p ∷ ls) h.below_front in
        record {
          front = (
            rw (Avoids_sym s.fresh p new.0, ==_refl s.fresh) refl,
            rw (Avoids_sym s.fresh p new.0, ==_refl s.fresh) refl,
            (
              rw (==_refl p) refl,
              rw (==_refl p, new.0) h.front.1,
              Front-frame s (tail_store p) (p ∷ s.fresh ∷ []) ls (some p) (tail-Changes p)
                  (away2 ls p s.fresh h.distinct_front.0 new.1) h.front.2,
            ),
          );
          back = tt;
          starts = h.starts;
          ends = refl;
          counted = rw h.counted (ap pos (omega arith));
          distinct_front = (new, h.distinct_front);
          distinct_back = tt;
          apart = (tt, h.apart);
          below_front = (omega arith, AreBelow-suc s.fresh (p ∷ ls) h.below_front);
          below_back = tt;
        }

    head_linked :
        (q : ℕ) (rs : List ℕ)
        → IsAt l s [] (q ∷ rs)
        → IsAt
            (record l { head = some s.fresh; length = increment l.length })
            (head_store q)
            []
            (s.fresh ∷ q ∷ rs)
    unfolding alloc set_prev put
    head_linked q rs h =
        let new = Avoids-fresh s.fresh (q ∷ rs) h.below_back in
        record {
          front = tt;
          back = (
            rw (Avoids_sym s.fresh q new.0, ==_refl s.fresh) refl,
            rw (Avoids_sym s.fresh q new.0, ==_refl s.fresh) refl,
            (
              rw (==_refl q) refl,
              rw (==_refl q, new.0) h.back.1,
              Back-frame s (head_store q) (q ∷ s.fresh ∷ []) rs (some q) (head-Changes q)
                  (away2 rs q s.fresh h.distinct_back.0 new.1) h.back.2,
            ),
          );
          starts = refl;
          ends = h.ends;
          counted = rw h.counted (ap pos (omega arith));
          distinct_front = tt;
          distinct_back = (new, h.distinct_back);
          apart = tt;
          below_front = tt;
          below_back = (omega arith, AreBelow-suc s.fresh (q ∷ rs) h.below_back);
        }

    lone_linked :
        (n : ListNode T)
        → n.next ≡ none
        → n.prev ≡ none
        → l.length ≡ pos 0
        → IsAt
            (record { head = some s.fresh; tail = some s.fresh; length = increment l.length })
            (alloc s n)
            (s.fresh ∷ [])
            []
    unfolding alloc put
    lone_linked n e f c = record {
      front = (rw (==_refl s.fresh) e, rw (==_refl s.fresh) f, tt);
      back = tt;
      starts = refl;
      ends = refl;
      counted = rw c refl;
      distinct_front = (tt, tt);
      distinct_back = tt;
      apart = (tt, tt);
      below_front = (omega arith, tt);
      below_back = tt;
    }

    -- The new node, the old ones with their values, and nothing else.
    abbrev pub Joins : LinkedList × Store T → List ℕ → List ℕ → ℕ → Type 0
    Joins r ls rs n =
        IsAt r.0 r.1 ls rs × KeepsValues s r.1 × ((r.1.node n).value ≡ v) × (s.fresh ≤ n)

    pub keeps_alloc : (n : ListNode T) → KeepsValues s (alloc s n)
    unfolding alloc put
    keeps_alloc n b h = ground arith

    keeps_tail : (p : ℕ) → KeepsValues s (tail_store p)
    unfolding set_next
    keeps_tail p b h =
        put-value (alloc s (cell (some p) none v)) p _ b refl
        ∙ keeps_alloc (cell (some p) none v) b h

    keeps_head : (q : ℕ) → KeepsValues s (head_store q)
    unfolding set_prev
    keeps_head q b h =
        put-value (alloc s (cell none (some q) v)) q _ b refl
        ∙ keeps_alloc (cell none (some q) v) b h

    new_value : (n : ListNode T) → ((alloc s n).node s.fresh).value ≡ n.value
    unfolding alloc put
    new_value n = rw (==_refl s.fresh) refl

    -- `AddNodeTail` puts a new node with the value behind all others of a doubly linked list, and
    -- the other nodes keep their order and their values.
    pub add_node_tail-IsAt :
        (ls : List ℕ) → IsAt l s ls [] → Joins (add_node_tail l s v) (s.fresh ∷ ls) [] s.fresh
    unfolding add_node_tail set_next
    add_node_tail-IsAt [] h =
        rw (add_node_tail, h.ends)
          (
            lone_linked (cell none none v) refl refl h.counted,
            keeps_alloc (cell none none v),
            new_value (cell none none v),
            omega arith,
          )
    add_node_tail-IsAt (p ∷ ls) h =
        rw (add_node_tail, h.ends)
          (
            tail_linked p ls h,
            keeps_tail p,
            put-value (alloc s (cell (some p) none v)) p _ s.fresh refl
                ∙ new_value (cell (some p) none v),
            omega arith,
          )

    pub add_node_head-IsAt :
        (rs : List ℕ) → IsAt l s [] rs → Joins (add_node_head l s v) [] (s.fresh ∷ rs) s.fresh
    unfolding add_node_head set_prev
    add_node_head-IsAt [] h =
        rw (add_node_head, h.starts)
          (
            move_back _ _ s.fresh [] [] (lone_linked (cell none none v) refl refl h.counted),
            keeps_alloc (cell none none v),
            new_value (cell none none v),
            omega arith,
          )
    add_node_head-IsAt (q ∷ rs) h =
        rw (add_node_head, h.starts)
          (
            head_linked q rs h,
            keeps_head q,
            put-value (alloc s (cell none (some q) v)) q _ s.fresh refl
                ∙ new_value (cell none (some q) v),
            omega arith,
          )
