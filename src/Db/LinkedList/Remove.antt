-- ===== src/Db/LinkedList/Remove.antt =====
-- `RemoveNode` of db/dlist.go takes its node out of the sequence.
use go_mock_redis.Base.{ℕ, ◌≡◌, refl, ◌∙◌, false, none, some, List, [], ◌∷◌, arith, ◌==◌}
use go_mock_redis.Base.Signed.{decrement}
use go_mock_redis.Db.LinkedList.{
  Pointer, Store, LinkedList, put, set_next, set_prev, unlink_prev, unlink_next, remove_node,
}
use go_mock_redis.Db.LinkedList.Cursor.{
  first, IsAt, KeepsValues, Changes, Front-frame, Back-frame, Avoids_sym, put-value, away2, away3,
  AreApart-head,
}

-- What `RemoveNode` does, with the pointers of its node read once.
unfoldable after : {T : Type 0} → LinkedList → Store T → ℕ → (p q : Pointer) → LinkedList × Store T
unfolding unlink_prev unlink_next put
after l s a p q =
    let (l1, s1) = unlink_prev l s p q in
    let (l2, s2) = unlink_next l1 s1 p q in
    (
      record l2 { length = decrement l2.length },
      put s2 a (record (s2.node a) { next = none; prev = none }),
    )

abbrev IsOther : ℕ → Pointer → Type 0
IsOther a none = Unit {0}
IsOther a (some p) = (a == p) ≡ false

module _ {T : Type 0} (l : LinkedList) (s : Store T) (a : ℕ) where
  remove_node-after :
      (p q : Pointer)
      → IsOther a p
      → (s.node a).prev ≡ p
      → (s.node a).next ≡ q
      → remove_node l s a ≡ after l s a p q
  unfolding remove_node after unlink_prev set_next put
  remove_node-after none q o e f = rw (remove_node, e, f, unlink_prev, e) refl
  remove_node-after (some p) q o e f = rw (remove_node, e, f, unlink_prev, o, e) refl

  after-value : (p q : Pointer) (b : ℕ) → ((after l s a p q).1.node b).value ≡ (s.node b).value
  unfolding after unlink_prev unlink_next set_next set_prev
  after-value none none b = put-value s a _ b refl
  after-value none (some r) b = put-value (set_prev s r none) a _ b refl ∙ put-value s r _ b refl
  after-value (some p) none b = put-value (set_next s p none) a _ b refl ∙ put-value s p _ b refl
  after-value (some p) (some r) b =
      put-value (set_prev (set_next s p (some r)) r (some p)) a _ b refl
      ∙ put-value (set_next s p (some r)) r _ b refl
      ∙ put-value s p _ b refl

  same_between : (p r : ℕ) → Changes (p ∷ r ∷ a ∷ []) s (after l s a (some p) (some r)).1
  unfolding after unlink_prev unlink_next set_next set_prev put
  same_between p r b d = rw (Avoids_sym b a d.1.1.0, Avoids_sym b r d.1.0, Avoids_sym b p d.0) refl

  abbrev IsCut : List ℕ → List ℕ → LinkedList × Store T → Type 0
  IsCut ls rs (l', s') = IsAt l' s' ls rs

  IsCut-between :
      (p r : ℕ) (ls rs : List ℕ)
      → IsAt l s (p ∷ ls) (a ∷ r ∷ rs)
      → IsCut (p ∷ ls) (r ∷ rs) (after l s a (some p) (some r))
  unfolding after unlink_prev unlink_next set_next set_prev put
  IsCut-between p r ls rs h =
      let s' = (after l s a (some p) (some r)).1 in
      let ap = h.apart.0.0 in
      let rp = h.apart.0.1.0 in
      let ra = h.distinct_back.0.0 in
      let side = AreApart-head ls (r ∷ rs) a h.apart.1 in
      record {
        front = (
          ground arith,
          ground arith,
          Front-frame s s' (p ∷ r ∷ a ∷ []) ls (some p) (same_between p r)
              (away3 ls p r a h.distinct_front.0 (AreApart-head ls rs r side.1).0 side.0) h.front.2,
        );
        back = (
          ground arith,
          ground arith,
          Back-frame s s' (p ∷ r ∷ a ∷ []) rs (some r) (same_between p r)
              (away3 rs p r a h.apart.0.1.1 h.distinct_back.1.0 h.distinct_back.0.1) h.back.2.2,
        );
        starts = h.starts;
        ends = h.ends;
        counted = ground arith;
        distinct_front = h.distinct_front;
        distinct_back = h.distinct_back.1;
        apart = (h.apart.0.1, side.1);
        below_front = h.below_front;
        below_back = h.below_back.1;
      }

  IsCut-last :
      (p : ℕ) (ls : List ℕ)
      → IsAt l s (p ∷ ls) (a ∷ [])
      → IsCut (p ∷ ls) [] (after l s a (some p) none)
  unfolding after unlink_prev unlink_next set_next set_prev put
  IsCut-last p ls h =
      let s' = (after l s a (some p) none).1 in
      let ap = h.apart.0.0 in
      let side = AreApart-head ls [] a h.apart.1 in
      let same : Changes (p ∷ a ∷ []) s s' = λ b d. ground arith in
      record {
        front = (
          ground arith,
          ground arith,
          Front-frame s s' (p ∷ a ∷ []) ls (some p) same (away2 ls p a h.distinct_front.0 side.0)
              h.front.2,
        );
        back = tt;
        starts = h.starts;
        ends = refl;
        counted = ground arith;
        distinct_front = h.distinct_front;
        distinct_back = tt;
        apart = (tt, side.1);
        below_front = h.below_front;
        below_back = tt;
      }

  IsCut-first :
      (r : ℕ) (rs : List ℕ)
      → IsAt l s [] (a ∷ r ∷ rs)
      → IsCut [] (r ∷ rs) (after l s a none (some r))
  unfolding after unlink_prev unlink_next set_next set_prev put
  IsCut-first r rs h =
      let s' = (after l s a none (some r)).1 in
      let ra = h.distinct_back.0.0 in
      let same : Changes (r ∷ a ∷ []) s s' = λ b d. ground arith in
      record {
        front = tt;
        back = (
          ground arith,
          ground arith,
          Back-frame s s' (r ∷ a ∷ []) rs (some r) same
              (away2 rs r a h.distinct_back.1.0 h.distinct_back.0.1) h.back.2.2,
        );
        starts = refl;
        ends = h.ends;
        counted = ground arith;
        distinct_front = tt;
        distinct_back = h.distinct_back.1;
        apart = tt;
        below_front = tt;
        below_back = h.below_back.1;
      }

  IsCut-only : IsAt l s [] (a ∷ []) → IsCut [] [] (after l s a none none)
  unfolding after unlink_prev unlink_next put
  IsCut-only h = record {
    front = tt;
    back = tt;
    starts = refl;
    ends = refl;
    counted = ground arith;
    distinct_front = tt;
    distinct_back = tt;
    apart = tt;
    below_front = tt;
    below_back = tt;
  }

  IsCut-here :
      (ls rs : List ℕ)
      → IsAt l s ls (a ∷ rs)
      → IsCut ls rs (after l s a (first none ls) (first none rs))
  IsCut-here [] [] h = IsCut-only h
  IsCut-here [] (r ∷ rs) h = IsCut-first r rs h
  IsCut-here (p ∷ ls) [] h = IsCut-last p ls h
  IsCut-here (p ∷ ls) (r ∷ rs) h = IsCut-between p r ls rs h

  IsOther-front : (ls rs : List ℕ) → IsAt l s ls (a ∷ rs) → IsOther a (first none ls)
  IsOther-front [] rs h = tt
  IsOther-front (p ∷ ls) rs h = h.apart.0.0

  -- `RemoveNode` of a node of a doubly linked list takes this node out of the sequence, at
  -- whatever place: the other nodes keep their order, the links both ways, the head, the tail and
  -- the length fit, and all values stay.
  pub remove_node-IsAt :
      (ls rs : List ℕ)
      → IsAt l s ls (a ∷ rs)
      → IsAt (remove_node l s a).0 (remove_node l s a).1 ls rs × KeepsValues s (remove_node l s a).1
  remove_node-IsAt ls rs h =
      rw
        (remove_node-after (first none ls) (first none rs) (IsOther-front ls rs h) h.back.0
          h.back.1)
        (IsCut-here ls rs h, λ b k. after-value (first none ls) (first none rs) b)
