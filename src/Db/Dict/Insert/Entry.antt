-- ===== src/Db/Dict/Insert/Entry.antt =====
-- db/dict.go, `GetEntry` and `GetVal` on a table that stands for a map.
use mathlib.Core.Option.{or_else}
use go_mock_redis.Base.{
  ℕ, ◌<◌, ◌≡◌, refl, ◌∙◌, Bool, true, false, List, [], arith, Option, none, some, length, ok,
  Returns, Option-cases, inl, inr,
}
use go_mock_redis.Db.Hash.{Key}
use go_mock_redis.Db.Dict.{Chain, HashTable}
use go_mock_redis.Db.Dict.Insert.{Slot, chain_of, get_val, position_of, find_slot, get_entry}
use go_mock_redis.Db.Dict.Insert.Slots.{
  value_at-position_of, position_of-eq-none, position_of-eq-some,
}
use go_mock_redis.Db.Dict.Insert.Pointers.{PointsTo, main, new, size-pos}
use go_mock_redis.Db.Dict.Buckets.{home, home-lt, hash-home, at-get_or, bucket, view}
use go_mock_redis.Db.Dict.Steps.{Models}

module _ {ℓ} {K V : Type ℓ} ⦃key : Key K⦄ (k : K) where
  find_slot-none :
      (rehashing : Bool) (t : List (Chain K V)) (n : ℕ)
      → 0 < n
      → length t ≡ n
      → view n t k ≡ none
      → find_slot rehashing k t n ≡ ok none
  unfolding find_slot view
  find_slot-none rehashing t n pos width absent = rw (
    hash-home k n pos,
    at-get_or t (home k n) [] (omega (arith, home-lt k n pos)),
    position_of-eq-none k (bucket t (home k n)) absent,
  )

  find_slot-some :
      (rehashing : Bool) (t : List (Chain K V)) (n : ℕ) {v : V}
      → 0 < n
      → length t ≡ n
      → view n t k ≡ some v
      → (p : ℕ) × (position_of k (bucket t (home k n)) ≡ some p)
        × (find_slot rehashing k t n
            ≡ ok (some (record { rehashing = rehashing; index = home k n; position = p })))
  unfolding find_slot view
  find_slot-some rehashing t n pos width held =
      let (p, e) = position_of-eq-some k (bucket t (home k n)) held in
      (p, e, rw (hash-home k n pos, at-get_or t (home k n) [] (omega (arith, home-lt k n pos)), e))

  -- The pointer that `GetEntry` returns for a key of the map.
  pub record Found (h : HashTable K V) (v : V) (o : Option Slot) : Type ℓ where
    pub slot : Slot
    pub is_slot : o ≡ some slot
    pub points : PointsTo k h slot
    pub holds : get_val h o ≡ ok (some v)

  main-Found :
      {total : ℕ} {f : K → Option V} (h : HashTable K V) {v : V}
      → Models total f h
      → view h.size h.table k ≡ some v
      → Returns (find_slot false k h.table h.size) (Found h v)
  unfolding get_val chain_of view
  main-Found h m held =
      let (pos, width) = size-pos k h m in
      let (p, e, run) = find_slot-some false h.table h.size pos width held in
      let s : Slot = record { rehashing = false; index = home k h.size; position = p } in
      (
        some s,
        run,
        record {
          slot = s;
          is_slot = refl;
          points = main refl refl e;
          holds = rw (
            at-get_or h.table (home k h.size) [] (omega (arith, home-lt k h.size pos)),
            value_at-position_of k (bucket h.table (home k h.size)) e,
            held,
          );
        },
      )

  new-Found :
      {total idx : ℕ} {f : K → Option V} (h : HashTable K V) {v : V}
      → Models total f h
      → h.rehashing_idx ≡ some idx
      → view h.rehashing_size h.rehashing_tbl k ≡ some v
      → Returns (find_slot true k h.rehashing_tbl h.rehashing_size) (Found h v)
  unfolding get_val chain_of view
  new-Found {idx = idx} h m r held =
      let u = (m.moving idx r).1 in
      let n = h.rehashing_size in
      let pos : 0 < n = omega (arith, u.pos, u.doubled) in
      let (p, e, run) = find_slot-some true h.rehashing_tbl n pos u.new_width held in
      let s : Slot = record { rehashing = true; index = home k n; position = p } in
      (
        some s,
        run,
        record {
          slot = s;
          is_slot = refl;
          points = new idx r refl refl e;
          holds = rw (
            at-get_or h.rehashing_tbl (home k n) [] (omega (arith, home-lt k n pos, u.new_width)),
            value_at-position_of k (bucket h.rehashing_tbl (home k n)) e,
            held,
          );
        },
      )

  -- `GetEntry` of a key of the map does not fail and returns a pointer to an entry with the key
  -- and the map's value.
  pub get_entry-Found :
      {total : ℕ} {f : K → Option V} (h : HashTable K V) {v : V}
      → Models total f h
      → f k ≡ some v
      → Returns (get_entry h k) (Found h v)
  unfolding get_entry or_else
  get_entry-Found h m held = elim (Option-cases h.rehashing_idx) [
    | inl e ↦
        let (o, run, found) = main-Found h m ((m.resting e).1.reads k ∙ held) in
        (o, rw (e, get_entry) run, found)
    | inr (idx, e) ↦
        let u = (m.moving idx e).1 in
        let pos : 0 < h.rehashing_size = omega (arith, u.pos, u.doubled) in
        elim (Option-cases (view h.rehashing_size h.rehashing_tbl k)) [
          | inl absent ↦
              let (o, run, found) = main-Found h m (ground (arith, u.reads k)) in
              (
                o,
                rw
                    (
                      e,
                      get_entry,
                      find_slot-none true h.rehashing_tbl h.rehashing_size pos u.new_width absent,
                    )
                    run,
                found,
              )
          | inr (w, there) ↦
              let (o, run, found) = new-Found h m e (ground (arith, u.reads k)) in
              (o, rw (e, get_entry, run, found.is_slot), found)
        ]
  ]
