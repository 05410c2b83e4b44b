-- ===== src/Db/Dict/Stale.antt =====
-- db/dict.go: a write during a rehashing to a key that still waits in the old table.
use mathlib.Core.Option.{or_else}
use go_mock_redis.Base.{
  ℕ, ◌+◌, ◌≤◌, ◌<◌, ◌≡◌, ◌∙◌, true, [], arith, ◌==◌, if◌then◌else◌, Option, some, length, set,
  length-set, get_or-set, ok, Returns, Bool-cases, ==_refl, inl, inr,
}
use go_mock_redis.Db.Memory.{Value}
use go_mock_redis.Db.Hash.{Key}
use go_mock_redis.Db.Dict.{
  HashTable, rehashing_buckets, find, get, finish_rehashing, rehash_step, store, set_new, put_chain,
  increase_memory,
}
use go_mock_redis.Db.Dict.Chains.{find-put_chain}
use go_mock_redis.Db.Dict.Buckets.{home, home-lt, hash-home, at-get_or, bucket, view}
use go_mock_redis.Db.Dict.Rehash.{IsMoving}
use go_mock_redis.Db.Dict.Steps.{Models}
use go_mock_redis.Db.Dict.Tables.{get_from_table-view}
use native.Mathlib.Decide.{dec_le}
use go_mock_redis.Db.Dict.Overtake.{among, IsWide, move_buckets-Overtaken}

module _ {ℓ} {K V : Type ℓ} ⦃key : Key K⦄ (k : K) where
  get-new :
      (h : HashTable K V) (i : ℕ) {x : V}
      → IsWide k h
      → h.rehashing_idx ≡ some i
      → view h.rehashing_size h.rehashing_tbl k ≡ some x
      → get h k ≡ ok (some x)
  unfolding get
  get-new h i w e reads =
      rw (e, get, get_from_table-view k h.rehashing_tbl w.new_pos w.new_width, reads)

  get-finish :
      (h : HashTable K V) (i : ℕ) {x : V}
      → IsWide k h
      → h.rehashing_idx ≡ some i
      → view h.rehashing_size h.rehashing_tbl k ≡ some x
      → get (finish_rehashing h) k ≡ ok (some x)
  unfolding finish_rehashing get
  get-finish h i w e reads = elim (Bool-cases (i == h.size)) [
    | inl done ↦ rw (
      e,
      finish_rehashing,
      done,
      get_from_table-view k h.rehashing_tbl w.new_pos w.new_width,
      reads,
    )
    | inr more ↦ rw (e, finish_rehashing, more) (get-new h i w e reads)
  ]

  rehash_step-reads :
      (h : HashTable K V) (idx : ℕ) {old : V}
      → IsWide k h
      → h.rehashing_idx ≡ some idx
      → view h.size h.table k ≡ some old
      → idx ≤ home k h.size
      → home k h.size < idx + rehashing_buckets
      → Returns (rehash_step h) (λ h'. get h' k ≡ ok (some old))
  unfolding rehash_step or_else
  rehash_step-reads h idx w e waits lo hi =
      let (h', run, o) = move_buckets-Overtaken k rehashing_buckets idx h w in
      let moves : among rehashing_buckets idx (home k h.size) ≡ true = ground arith in
      (
        finish_rehashing h',
        rw (e, rehash_step, run),
        get-finish h' o.stop o.wide o.index (o.reads ∙ rw (moves, waits)),
      )

  waits-from :
      {total idx : ℕ} {f : K → Option V} {old : V} (h : HashTable K V)
      → IsMoving total f idx h
      → view h.size h.table k ≡ some old
      → idx ≤ home k h.size
  unfolding view find
  waits-from {idx = idx} h m waits = elim (dec_le idx (home k h.size)) [
    | yes p ↦ p
    | no p ↦
        let gone : bucket h.table (home k h.size) ≡ [] = m.moved (home k h.size) (omega arith) in
        absurd (cc)
  ]

  -- During a rehashing, the write of `Set` to a key whose old entry waits in one of the next ten
  -- buckets is read back at first, and after the next step of the rehashing the key reads its old
  -- value again.
  pub store-stale :
      (value_of : V → Value) (used : ℕ) (v : V) {total idx : ℕ} {f : K → Option V} {old : V}
      (h : HashTable K V)
      → Models total f h
      → h.rehashing_idx ≡ some idx
      → view h.size h.table k ≡ some old
      → home k h.size < idx + rehashing_buckets
      → Returns (store value_of used h k v) λ r.
        (get r.1 k ≡ ok (some v)) × Returns (rehash_step r.1) (λ h'. get h' k ≡ ok (some old))
  unfolding store set_new view
  store-stale value_of used v {idx = idx} h m e waits near =
      let (below, u) = m.moving idx e in
      let n = h.rehashing_size in
      let pos : 0 < n = omega (arith, u.pos, u.doubled) in
      let c = bucket h.rehashing_tbl (home k n) in
      let r = put_chain k v c in
      let inside : home k n < length h.rehashing_tbl =
        omega (arith, home-lt k n pos, u.new_width) in
      let h' : HashTable K V = record h {
        rehashing_tbl = set h.rehashing_tbl (home k n) r.0;
        count = if r.1 then h.count + 1 else h.count;
      } in
      let w : IsWide k h' = record {
        pos = u.pos;
        new_pos = pos;
        width = u.width;
        new_width = rw length-set u.new_width;
        placed = u.placed;
      } in
      let reads : view n h'.rehashing_tbl k ≡ some v =
        rw (get_or-set h.rehashing_tbl (home k n) (home k n) r.0 [] inside, ==_refl)
          (find-put_chain k k v c ∙ rw key.equal_refl) in
      (
        (if r.1 then increase_memory value_of used k v else used, h'),
        ground (arith, hash-home k n pos, at-get_or h.rehashing_tbl (home k n) [] inside),
        (get-new h' idx w e reads, rehash_step-reads h' idx w e waits (waits-from h u waits) near),
      )
