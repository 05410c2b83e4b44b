-- ===== src/Db/Eviction/Pool.antt =====
-- db/lru.go, `EvictionPoolPopulate`: the order of the pool.
use go_mock_redis.Base.{
  ℕ, ◌≡◌, refl, Bool, true, false, not, ◌&&◌, ◌||◌, List, [], ◌∷◌, arith, Bytes, ltb, leb,
  Bool-cases, inl, inr,
}
use go_mock_redis.Db.Eviction.{PoolEntry, is_free, insert_key, slot_for}

-- A free slot has only free ones behind it, and the idle times ascend.
abbrev pub in_order : PoolEntry → PoolEntry → Bool
in_order e f = is_free f || (not (is_free e) && leb e.idle f.idle)

abbrev pub IsOrdered : List PoolEntry → Type 0
IsOrdered [] = Unit
IsOrdered (e ∷ []) = Unit
IsOrdered (e ∷ f ∷ es) = (in_order e f ≡ true) × IsOrdered (f ∷ es)

-- The search for a slot goes past the entry.
abbrev pub passes : ℕ → PoolEntry → Bool
passes idle e = not (is_free e) && ltb e.idle idle

-- Where a key belongs, seen from one entry of the pool.
module _ (new : PoolEntry) (named : is_free new ≡ false) where
  in_order_before : (e : PoolEntry) → passes new.idle e ≡ false → in_order new e ≡ true
  in_order_before e stops = ground arith

  in_order_after : (e : PoolEntry) → passes new.idle e ≡ true → in_order e new ≡ true
  in_order_after e goes = ground arith

in_order_free : (e f : PoolEntry) → is_free f ≡ true → in_order e f ≡ true
in_order_free e f free = rw free refl

free_next : (e f : PoolEntry) → is_free e ≡ true → in_order e f ≡ true → is_free f ≡ true
free_next e f free order = ground arith

module _ (a b c d : PoolEntry) (key : Bytes) (idle : ℕ)
    (named : is_free (record { key = key; idle = idle }) ≡ false) where
  abbrev new : PoolEntry
  new = record { key = key; idle = idle }

  -- Putting a sampled key, which is not empty, into the pool of four keys keeps the pool in order:
  -- the free slots stand behind the used ones and the idle times ascend.
  pub insert_key-IsOrdered :
      IsOrdered (a ∷ b ∷ c ∷ d ∷ []) → IsOrdered (insert_key (a ∷ b ∷ c ∷ d ∷ []) key idle)
  unfolding insert_key slot_for
  insert_key-IsOrdered ordered =
      let ab : in_order a b ≡ true = ordered.0 in
      let bc : in_order b c ≡ true = ordered.1.0 in
      let cd : in_order c d ≡ true = ordered.1.1.0 in
      let before = in_order_before new named in
      let after = in_order_after new named in
      elim (Bool-cases (passes idle a)) [
        | inr pa ↦ elim (Bool-cases (is_free d)) [
          | inr fd ↦ rw (pa, fd) ordered
          | inl fd ↦ elim (Bool-cases (is_free a)) [
            | inl fa ↦ rw (pa, fd, fa) (in_order_free new b (free_next a b fa ab), (bc, (cd, tt)))
            | inr fa ↦ rw (pa, fd, fa) (before a pa, (ab, (bc, tt)))
          ]
        ]
        | inl pa ↦ elim (Bool-cases (passes idle b)) [
          | inr pb ↦ elim (Bool-cases (is_free b)) [
            | inl fb ↦
                rw (pa, pb, fb) (after a pa, (in_order_free new c (free_next b c fb bc), (cd, tt)))
            | inr fb ↦ elim (Bool-cases (is_free d)) [
              | inl fd ↦ rw (pa, pb, fb, fd) (after a pa, (before b pb, (bc, tt)))
              | inr fd ↦ rw (pa, pb, fb, fd) (before b pb, (bc, (cd, tt)))
            ]
          ]
          | inl pb ↦ elim (Bool-cases (passes idle c)) [
            | inr pc ↦ elim (Bool-cases (is_free c)) [
              | inl fc ↦
                  rw (pa, pb, pc, fc)
                    (ab, (after b pb, (in_order_free new d (free_next c d fc cd), tt)))
              | inr fc ↦ elim (Bool-cases (is_free d)) [
                | inl fd ↦ rw (pa, pb, pc, fc, fd) (ab, (after b pb, (before c pc, tt)))
                | inr fd ↦ rw (pa, pb, pc, fc, fd) (after b pb, (before c pc, (cd, tt)))
              ]
            ]
            | inl pc ↦ elim (Bool-cases (is_free d)) [
              | inl fd ↦ rw (fd, pa, pb, pc, fd) (ab, (bc, (after c pc, tt)))
              | inr fd ↦ elim (Bool-cases (passes idle d)) [
                | inr pd ↦ rw (pa, pb, pc, pd, fd) (bc, (after c pc, (before d pd, tt)))
                | inl pd ↦ rw (pa, pb, pc, pd, fd) (bc, (cd, (after d pd, tt)))
              ]
            ]
          ]
        ]
      ]
