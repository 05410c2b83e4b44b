-- ===== src/Db/LinkedList/Insert/Between.antt =====
-- `InsertNode` of db/dlist.go: behind a node it puts a new one there, in front of a node it does so
-- only where that node is the first, and panics elsewhere.
use go_mock_redis.Base.{
  ℕ, ◌<◌, ◌≤◌, ◌≡◌, refl, sym, ap, ◌∙◌, true, false, none, some, List, [], ◌∷◌, arith, ==_refl,
  fault, nil_pointer, Returns,
}
use go_mock_redis.Base.Signed.{pos, increment}
use go_mock_redis.Db.LinkedList.{
  Store, LinkedList, put, set_next, set_prev, alloc, cell, add_node_head, add_node_tail,
  insert_after, insert_before, insert_node,
}
use go_mock_redis.Db.LinkedList.Cursor.{
  IsAt, KeepsValues, Changes, Front-frame, Back-frame, Avoids_sym, AreApart-head, AreBelow-suc,
  Avoids-fresh, away3, put-value, move_front,
}
use go_mock_redis.Db.LinkedList.Insert.{
  alloc-IsAt, keeps_alloc, add_node_tail-IsAt, add_node_head-IsAt,
}

module _ {T : Type 0} (l : LinkedList) (s : Store T) (a : ℕ) (v : T) where
  abbrev junk : Store T
  junk = alloc s (cell none none v)

  abbrev mid_store : ℕ → Store T
  mid_store q =
      set_prev (set_next (put junk s.fresh (cell (some a) (some q) v)) a (some s.fresh)) q
        (some s.fresh)

  mid-Changes : (q : ℕ) → Changes (q ∷ a ∷ s.fresh ∷ []) s (mid_store q)
  unfolding alloc set_next set_prev put
  mid-Changes q b d =
      rw (Avoids_sym b q d.0, Avoids_sym b a d.1.0, Avoids_sym b s.fresh d.1.1.0) refl

  junk_value : (junk.node s.fresh).value ≡ v
  unfolding alloc put
  junk_value = rw (==_refl s.fresh) refl

  keeps_mid : (q : ℕ) → KeepsValues s (mid_store q)
  unfolding set_next set_prev
  keeps_mid q b h =
      put-value (set_next (put junk s.fresh (cell (some a) (some q) v)) a (some s.fresh)) q _ b refl
      ∙ put-value (put junk s.fresh (cell (some a) (some q) v)) a _ b refl
      ∙ old_value q b h
    where
      old_value :
          (q b : ℕ)
          → b < s.fresh
          → ((put junk s.fresh (cell (some a) (some q) v)).node b).value ≡ (s.node b).value
      old_value q b h =
          put-value junk s.fresh _ b (sym junk_value) ∙ keeps_alloc l s v (cell none none v) b h

  mid_linked :
      (q : ℕ) (ls rs : List ℕ)
      → IsAt l s (a ∷ ls) (q ∷ rs)
      → IsAt (record l { length = increment l.length }) (mid_store q) (s.fresh ∷ a ∷ ls) (q ∷ rs)
  unfolding alloc set_next set_prev put
  mid_linked q ls rs h =
      let n = s.fresh in
      let below = Avoids-fresh n (a ∷ ls) h.below_front in
      let above = Avoids-fresh n (q ∷ rs) h.below_back in
      let qa = h.apart.0.0 in
      let aq = Avoids_sym a q qa in
      let nq = Avoids_sym n q above.0 in
      let na = Avoids_sym n a below.0 in
      record {
        front = (
          rw (nq, na, ==_refl n) refl,
          rw (nq, na, ==_refl n) refl,
          (
            rw (aq, ==_refl a) refl,
            rw (aq, ==_refl a, below.0) h.front.1,
            Front-frame s (mid_store q) (q ∷ a ∷ n ∷ []) ls (some a) (mid-Changes q)
                (away3 ls q a n (AreApart-head ls rs q h.apart.1).0 h.distinct_front.0 below.1)
                h.front.2,
          ),
        );
        back = (
          rw (==_refl q) refl,
          rw (==_refl q, qa, above.0) h.back.1,
          Back-frame s (mid_store q) (q ∷ a ∷ n ∷ []) rs (some q) (mid-Changes q)
              (away3 rs q a n h.distinct_back.0 h.apart.0.1 above.1) h.back.2,
        );
        starts = h.starts;
        ends = h.ends;
        counted = rw h.counted (ap pos (omega arith));
        distinct_front = (below, h.distinct_front);
        distinct_back = h.distinct_back;
        apart = (above, h.apart);
        below_front = (omega arith, AreBelow-suc n (a ∷ ls) h.below_front);
        below_back = AreBelow-suc n (q ∷ rs) h.below_back;
      }

  -- A new node stands behind the given one; its address is the next but one at the end of the list,
  -- where the node that was made first is dropped.
  abbrev pub Inserts : LinkedList × Store T → List ℕ → List ℕ → Type 0
  Inserts r ls rs =
      (n : ℕ) × IsAt r.0 r.1 (n ∷ ls) rs
      × KeepsValues s r.1
      × ((r.1.node n).value ≡ v)
      × (s.fresh ≤ n)

  mid_value : (q : ℕ) → ((mid_store q).node s.fresh).value ≡ v
  unfolding set_next set_prev put
  mid_value q =
      put-value (set_next (put junk s.fresh (cell (some a) (some q) v)) a (some s.fresh)) q _
        s.fresh refl
      ∙ put-value (put junk s.fresh (cell (some a) (some q) v)) a _ s.fresh refl
      ∙ rw (==_refl s.fresh) refl

  last_joins : (ls : List ℕ) → IsAt l s (a ∷ ls) [] → Inserts (add_node_tail l junk v) (a ∷ ls) []
  unfolding alloc
  last_joins ls h =
      let j =
        add_node_tail-IsAt l junk v (a ∷ ls) (alloc-IsAt l s (cell none none v) (a ∷ ls) [] h) in
      (
        junk.fresh,
        j.0,
        λ b k. j.1 b (omega arith) ∙ keeps_alloc l s v (cell none none v) b k,
        j.2,
        omega arith,
      )

  insert_after-IsAt :
      (ls rs : List ℕ) → IsAt l s (a ∷ ls) rs → Inserts (insert_after l s a v) (a ∷ ls) rs
  unfolding insert_after
  insert_after-IsAt ls [] h = rw (insert_after, h.front.0) (last_joins ls h)
  insert_after-IsAt ls (q ∷ rs) h =
      rw (insert_after, h.front.0)
        (s.fresh, mid_linked q ls rs h, keeps_mid q, mid_value q, omega arith)

  -- In front of the first node the new one becomes the head; in front of any other the code panics.
  abbrev pub Precedes : LinkedList × Store T → List ℕ → Type 0
  Precedes r rs =
      (n : ℕ) × IsAt r.0 r.1 [] (n ∷ rs)
      × KeepsValues s r.1
      × ((r.1.node n).value ≡ v)
      × (s.fresh ≤ n)

  insert_before-first :
      (rs : List ℕ)
      → IsAt l s [] (a ∷ rs)
      → Returns (insert_before l s a v) (λ result. Precedes result (a ∷ rs))
  unfolding insert_before alloc
  insert_before-first rs h =
      let j =
        add_node_head-IsAt l junk v (a ∷ rs) (alloc-IsAt l s (cell none none v) [] (a ∷ rs) h) in
      (
        add_node_head l junk v,
        rw (insert_before, h.back.0) refl,
        (
          junk.fresh,
          j.0,
          λ b k. j.1 b (omega arith) ∙ keeps_alloc l s v (cell none none v) b k,
          j.2,
          omega arith,
        ),
      )

  insert_before-later :
      (p : ℕ) (ls rs : List ℕ)
      → IsAt l s (p ∷ ls) (a ∷ rs)
      → insert_before l s a v ≡ fault nil_pointer
  unfolding insert_before
  insert_before-later p ls rs h = rw (insert_before, h.back.0) refl

  abbrev pub InFront : List ℕ → List ℕ → Type 0
  InFront [] rs = Returns (insert_node l s a v false) (λ result. Precedes result (a ∷ rs))
  InFront (p ∷ ls) rs = insert_node l s a v false ≡ fault nil_pointer

  -- `InsertNode` behind a node of a doubly linked list puts a new node with the value there and
  -- keeps the other nodes, their order and their values; in front of the first node it does the
  -- same there, and in front of any other node it panics.
  pub insert_node-cases :
      (ls rs : List ℕ)
      → IsAt l s ls (a ∷ rs)
      → Returns (insert_node l s a v true) (λ result. Inserts result (a ∷ ls) rs) × InFront ls rs
  unfolding insert_node
  insert_node-cases [] rs h = (
    (insert_after l s a v, refl, insert_after-IsAt [] rs (move_front l s a [] rs h)),
    insert_before-first rs h,
  )
  insert_node-cases (p ∷ ls) rs h = (
    (insert_after l s a v, refl, insert_after-IsAt (p ∷ ls) rs (move_front l s a (p ∷ ls) rs h)),
    insert_before-later p ls rs h,
  )
