-- ===== src/Db/LinkedList/Cursor.antt =====
-- A list of db/dlist.go read as a sequence of nodes with a place in it: the nodes in front, the
-- nearest first, and the nodes behind.
use go_mock_redis.Base.{
  ℕ, suc, ◌+◌, ◌<◌, ◌≡◌, ap, ◌∙◌, false, none, some, List, [], ◌∷◌, arith, ◌==◌, length,
}
use go_mock_redis.Base.Signed.{pos}
use go_mock_redis.Db.LinkedList.{Pointer, ListNode, Store, LinkedList, put}

-- The nearest node of a side, or what lies beyond it.
abbrev pub first : Pointer → List ℕ → Pointer
first beyond [] = beyond
first beyond (a ∷ ls) = some a

-- The node at the far end.
abbrev pub last : Pointer → List ℕ → Pointer
last beyond [] = beyond
last beyond (a ∷ ls) = last (some a) ls

abbrev pub Avoids : ℕ → List ℕ → Type 0
Avoids a [] = Unit {0}
Avoids a (b ∷ rs) = ((b == a) ≡ false) × Avoids a rs

abbrev pub AreDistinct : List ℕ → Type 0
AreDistinct [] = Unit {0}
AreDistinct (a ∷ ls) = Avoids a ls × AreDistinct ls

abbrev pub AreApart : List ℕ → List ℕ → Type 0
AreApart [] rs = Unit {0}
AreApart (a ∷ ls) rs = Avoids a rs × AreApart ls rs

abbrev pub AreBelow : ℕ → List ℕ → Type 0
AreBelow n [] = Unit {0}
AreBelow n (a ∷ ls) = (a < n) × AreBelow n ls

module _ {T : Type 0} where
  -- The nodes in front: `q` is behind the nearest, and each has the next one of the list before it.
  abbrev pub Front : Store T → List ℕ → Pointer → Type 0
  Front s [] q = Unit {0}
  Front s (a ∷ ls) q =
      ((s.node a).next ≡ q) × ((s.node a).prev ≡ first none ls) × Front s ls (some a)

  -- The nodes behind, in the same way.
  abbrev pub Back : Store T → Pointer → List ℕ → Type 0
  Back s p [] = Unit {0}
  Back s p (b ∷ rs) = ((s.node b).prev ≡ p) × ((s.node b).next ≡ first none rs) × Back s (some b) rs

  -- The list of the nodes `ls`, the last first, and then `rs`.
  pub record IsAt (l : LinkedList) (s : Store T) (ls rs : List ℕ) : Type 0 where
    pub front : Front s ls (first none rs)
    pub back : Back s (first none ls) rs
    pub starts : l.head ≡ last (first none rs) ls
    pub ends : l.tail ≡ last (first none ls) rs
    pub counted : l.length ≡ pos (length ls + length rs)
    pub distinct_front : AreDistinct ls
    pub distinct_back : AreDistinct rs
    pub apart : AreApart ls rs
    pub below_front : AreBelow s.fresh ls
    pub below_back : AreBelow s.fresh rs

  -- The values of the nodes that there are.
  abbrev pub KeepsValues : Store T → Store T → Type 0
  KeepsValues s s' = (a : ℕ) → a < s.fresh → (s'.node a).value ≡ (s.node a).value

  abbrev next_of : ListNode T → Pointer
  next_of n = n.next

  abbrev prev_of : ListNode T → Pointer
  prev_of n = n.prev

  -- The nodes are the same but for those at some addresses.
  abbrev pub Changes : List ℕ → Store T → Store T → Type 0
  Changes places s s' = (a : ℕ) → Avoids a places → s'.node a ≡ s.node a

  pub Front-frame :
      (s s' : Store T) (places ls : List ℕ) (q : Pointer)
      → Changes places s s'
      → AreApart ls places
      → Front s ls q
      → Front s' ls q
  Front-frame s s' places [] q same d f = tt
  Front-frame s s' places (a ∷ ls) q same d f =
      let e = same a d.0 in
      (ap next_of e ∙ f.0, ap prev_of e ∙ f.1, Front-frame s s' places ls (some a) same d.1 f.2)

  pub Back-frame :
      (s s' : Store T) (places rs : List ℕ) (p : Pointer)
      → Changes places s s'
      → AreApart rs places
      → Back s p rs
      → Back s' p rs
  Back-frame s s' places [] p same d b = tt
  Back-frame s s' places (a ∷ rs) p same d b =
      let e = same a d.0 in
      (ap prev_of e ∙ b.0, ap next_of e ∙ b.1, Back-frame s s' places rs (some a) same d.1 b.2)

pub Avoids_sym : (a b : ℕ) → (b == a) ≡ false → (a == b) ≡ false
Avoids_sym a b h = ground arith

pub AreApart-cons : (ls rs : List ℕ) (a : ℕ) → Avoids a ls → AreApart ls rs → AreApart ls (a ∷ rs)
AreApart-cons [] rs a h d = tt
AreApart-cons (b ∷ ls) rs a h d = ((Avoids_sym a b h.0, d.0), AreApart-cons ls rs a h.1 d.1)

pub AreApart-head : (ls rs : List ℕ) (b : ℕ) → AreApart ls (b ∷ rs) → Avoids b ls × AreApart ls rs
AreApart-head [] rs b d = (tt, tt)
AreApart-head (a ∷ ls) rs b d =
    let later = AreApart-head ls rs b d.1 in ((Avoids_sym a b d.0.0, later.0), (d.0.1, later.1))

pub Avoids-fresh : (n : ℕ) (ls : List ℕ) → AreBelow n ls → Avoids n ls
Avoids-fresh n [] h = tt
Avoids-fresh n (a ∷ ls) h = (ground arith, Avoids-fresh n ls h.1)

pub AreApart-fresh : (n : ℕ) (ls : List ℕ) → AreBelow n ls → AreApart ls (n ∷ [])
AreApart-fresh n [] h = tt
AreApart-fresh n (a ∷ ls) h = ((ground arith, tt), AreApart-fresh n ls h.1)

pub AreApart-nil : (ls : List ℕ) → AreApart ls []
AreApart-nil [] = tt
AreApart-nil (a ∷ ls) = (tt, AreApart-nil ls)

pub AreBelow-suc : (n : ℕ) (ls : List ℕ) → AreBelow n ls → AreBelow (suc n) ls
AreBelow-suc n [] h = tt
AreBelow-suc n (a ∷ ls) h = (omega arith, AreBelow-suc n ls h.1)

pub away2 : (ls : List ℕ) (p a : ℕ) → Avoids p ls → Avoids a ls → AreApart ls (p ∷ a ∷ [])
away2 ls p a h k = AreApart-cons ls (a ∷ []) p h (AreApart-cons ls [] a k (AreApart-nil ls))

pub away3 :
    (ls : List ℕ) (p r a : ℕ)
    → Avoids p ls
    → Avoids r ls
    → Avoids a ls
    → AreApart ls (p ∷ r ∷ a ∷ [])
away3 ls p r a h j k = AreApart-cons ls (r ∷ a ∷ []) p h (away2 ls r a j k)

pub put-value :
    {T : Type 0} (s : Store T) (a : ℕ) (n : ListNode T) (b : ℕ)
    → n.value ≡ (s.node a).value
    → ((put s a n).node b).value ≡ (s.node b).value
unfolding put
put-value s a n b e = ground arith

add_suc : (m n : ℕ) → m + suc n ≡ suc m + n
add_suc m n = omega arith

module _ {T : Type 0} (l : LinkedList) (s : Store T) where
  -- The place in the sequence moves over a node either way.
  pub move_back : (a : ℕ) (ls rs : List ℕ) → IsAt l s (a ∷ ls) rs → IsAt l s ls (a ∷ rs)
  move_back a ls rs h = record {
    front = h.front.2;
    back = (h.front.1, h.front.0, h.back);
    starts = h.starts;
    ends = h.ends;
    counted = rw (add_suc (length ls) (length rs)) h.counted;
    distinct_front = h.distinct_front.1;
    distinct_back = (h.apart.0, h.distinct_back);
    apart = AreApart-cons ls rs a h.distinct_front.0 h.apart.1;
    below_front = h.below_front.1;
    below_back = (h.below_front.0, h.below_back);
  }

  pub move_front : (a : ℕ) (ls rs : List ℕ) → IsAt l s ls (a ∷ rs) → IsAt l s (a ∷ ls) rs
  move_front a ls rs h = record {
    front = (h.back.1, h.back.0, h.front);
    back = h.back.2;
    starts = h.starts;
    ends = h.ends;
    counted = rw (← add_suc (length ls) (length rs)) h.counted;
    distinct_front = ((AreApart-head ls rs a h.apart).0, h.distinct_front);
    distinct_back = h.distinct_back.1;
    apart = (h.distinct_back.0, (AreApart-head ls rs a h.apart).1);
    below_front = (h.below_back.0, h.below_front);
    below_back = h.below_back.1;
  }
