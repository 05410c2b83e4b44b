-- ===== src/Db/Dict/Delete.antt =====
-- db/dict.go, `Delete`: what a deletion does to the map that a table stands for.
use mathlib.Core.Option.{or_else}
use go_mock_redis.Base.{
  ℕ, ◌+◌, ◌-◌, ◌≤◌, ◌<◌, ◌≡◌, refl, ◌∙◌, Bool, ◌||◌, List, [], arith, ◌==◌, Option, none, some,
  length, set, get_or-set, Returns, Bool-cases, Option-cases, ==_iff, inl, inr,
}
use go_mock_redis.Db.Memory.{Value}
use go_mock_redis.Db.Hash.{Key}
use go_mock_redis.Db.Dict.{Chain, HashTable, delete_chain, delete_from_table, delete}
use go_mock_redis.Db.Dict.Chains.{
  to_nat, is_some, find-delete_chain, count-delete_chain-le, deleted-delete_chain,
}
use go_mock_redis.Db.Dict.Buckets.{
  home, home-lt, hash-home, at-get_or, entries-set, bucket, view, Holds, set-Holds,
}
use go_mock_redis.Db.Dict.Steps.{Models}
use go_mock_redis.Db.Dict.Write.{update}

module _ {ℓ} {K V : Type ℓ} ⦃key : Key K⦄ (value_of : V → Value) (k : K) where
  -- One table after the deletion. What is left in a bucket that was empty is empty.
  record Deleted (n total : ℕ) (f : K → Option V) (t : List (Chain K V))
      (r : ℕ × List (Chain K V) × Bool) : Type ℓ where
    holds : Holds n (total - to_nat r.2) (update f k none) r.1
    found : r.2 ≡ is_some (f k)
    enough : to_nat r.2 ≤ total
    empty : (i : ℕ) → bucket t i ≡ [] → bucket r.1 i ≡ []

  delete_chain-nil : (used : ℕ) (c : Chain K V) → c ≡ [] → (delete_chain value_of used k c).1 ≡ []
  unfolding delete_chain
  delete_chain-nil used c e = rw e

  delete_from_table-Deleted :
      {n total : ℕ} {f : K → Option V} (used : ℕ) (t : List (Chain K V))
      → 0 < n
      → Holds n total f t
      → Returns (delete_from_table value_of used k t) (Deleted n total f t)
  unfolding delete_from_table view
  delete_from_table-Deleted {n} {total} {f} used t pos holds =
      let c = bucket t (home k n) in
      let r = delete_chain value_of used k c in
      let inside : home k n < length t = omega (arith, home-lt k n pos, holds.width) in
      let (found, shorter) = deleted-delete_chain value_of used k c in
      let size = entries-set t (home k n) r.1 inside in
      let u =
        set-Holds t pos holds.width holds.placed k none r.1 (total - to_nat r.2)
          (omega (arith, shorter, size, holds.size))
          (λ q. omega (arith, count-delete_chain-le k q value_of used c))
          (λ q. find-delete_chain k q value_of used c (holds.placed q (home k n)).0) in
      (
        (r.0, set t (home k n) r.1, r.2),
        rw (holds.width, hash-home k n pos, at-get_or t (home k n) [] inside),
        record {
          holds = record {
            width = u.width;
            size = u.size;
            placed = u.placed;
            reads = λ q. ground (arith, u.reads q, holds.reads q);
          };
          found = found ∙ ground (arith, holds.reads k);
          enough = omega (arith, shorter, size, holds.size);
          empty = λ i e.
              rw (get_or-set t (home k n) i r.1 [] inside) (elim (Bool-cases (home k n == i)) [
                | inl here ↦ rw here (delete_chain-nil used c (rw ((==_iff _ _).0 here) e))
                | inr away ↦ rw away e
              ]);
        },
      )

  -- The table after `Delete`: the key is gone, the flag says whether it was there, and the counter
  -- of entries is what it was.
  pub record Removed (total : ℕ) (f : K → Option V) (h : HashTable K V)
      (r : ℕ × HashTable K V × Bool) : Type ℓ where
    pub models : Models (total - to_nat r.2) (update f k none) r.1
    pub found : r.2 ≡ is_some (f k)
    pub same_count : r.1.count ≡ h.count

  delete_resting :
      {total : ℕ} {f : K → Option V} (used : ℕ) (h : HashTable K V)
      → Models total f h
      → h.rehashing_idx ≡ none
      → Returns (delete value_of used h k) (Removed total f h)
  unfolding delete
  delete_resting used h m e =
      let (pos, t) = m.resting e in
      let (r, run, d) = delete_from_table-Deleted used h.table pos t in
      (
        (r.0, record h { table = r.1 }, r.2),
        ground (arith, run),
        record {
          models = record { resting = λ _. (pos, d.holds); moving = λ i p. absurd (cc) };
          found = d.found;
          same_count = refl;
        },
      )

  delete_moving :
      {total idx : ℕ} {f : K → Option V} (used : ℕ) (h : HashTable K V)
      → Models total f h
      → h.rehashing_idx ≡ some idx
      → Returns (delete value_of used h k) (Removed total f h)
  unfolding delete or_else
  delete_moving {total} {idx} {f} used h m e =
      let (below, u) = m.moving idx e in
      let (r, run, d) =
        delete_from_table-Deleted used h.table u.pos
          (record { width = u.width; size = refl; placed = u.placed; reads = λ q. refl }) in
      let (s, run', d') =
        delete_from_table-Deleted r.0 h.rehashing_tbl (omega (arith, u.pos, u.doubled))
          (record { width = u.new_width; size = refl; placed = u.new_placed; reads = λ q. refl }) in
      let one : to_nat (r.2 || s.2) ≡ to_nat r.2 + to_nat s.2 =
        ground (arith, d.found, d'.found, u.apart k) in
      (
        (s.0, record h { table = r.1; rehashing_tbl = s.1 }, r.2 || s.2),
        ground (arith, run, run'),
        record {
          models = record {
            resting = λ p. absurd (cc);
            moving = λ i p.
                let first : idx ≡ i = ground arith in
                rw (← first) (
                  below,
                  record {
                    pos = u.pos;
                    within = u.within;
                    width = d.holds.width;
                    placed = d.holds.placed;
                    doubled = u.doubled;
                    new_width = d'.holds.width;
                    new_placed = d'.holds.placed;
                    total_size = omega (
                      arith, d.holds.size, d'.holds.size, u.total_size, one, d.enough, d'.enough,
                    );
                    moved = λ j lt. d.empty j (u.moved j lt);
                    apart = λ q. ground (arith, d.holds.reads q, d'.holds.reads q, u.apart q);
                    reads = λ q. ground (arith, d.holds.reads q, d'.holds.reads q, u.reads q);
                  },
                );
          };
          found = ground (arith, d.found, d'.found, u.reads k);
          same_count = refl;
        },
      )

  -- `Delete` on a hash table that stands for a map does not fail, removes the key from the map
  -- wherever its entry stands, reports whether the key was there, and leaves the counter of
  -- entries as it was.
  pub delete-Removed :
      {total : ℕ} {f : K → Option V} (used : ℕ) (h : HashTable K V)
      → Models total f h
      → Returns (delete value_of used h k) (Removed total f h)
  delete-Removed used h m = elim (Option-cases h.rehashing_idx) [
    | inl e ↦ delete_resting used h m e
    | inr (idx, e) ↦ delete_moving used h m e
  ]
