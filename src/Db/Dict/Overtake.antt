-- ===== src/Db/Dict/Overtake.antt =====
-- db/dict.go, `rehashStep`: how a moved entry overtakes an entry of the new table under the same key.
use mathlib.Core.Option.{or_else}
use go_mock_redis.Base.{
  ℕ, zero, suc, ◌+◌, ◌≤◌, ◌<◌, ◌≡◌, refl, ◌∙◌, Bool, true, false, ◌&&◌, List, [], ◌∷◌, arith, ◌==◌,
  leb, ltb, if◌then◌else◌, Option, none, some, length, set, length-set, get_or-set, Returns,
  Bool-cases, ==_iff, ne_of_==_false, ltb→lt, inl, inr,
}
use go_mock_redis.Db.Hash.{Key}
use go_mock_redis.Db.Dict.{Chain, HashTable, find, move_chain, move_buckets}
use go_mock_redis.Db.Dict.Chains.{count, find-uncounted}
use go_mock_redis.Db.Dict.Buckets.{home, home-lt, hash-home, at-get_or, bucket, IsPlaced, view}
use go_mock_redis.Db.Dict.Rehash.{view-empty, empty-IsPlaced}

abbrev pub among : ℕ → ℕ → ℕ → Bool
among rounds idx i = leb idx i && ltb i (idx + rounds)

among_here :
    (rounds idx i : ℕ)
    → (idx == i) ≡ true
    → (among rounds (suc idx) i ≡ false) × (among (suc rounds) idx i ≡ true)
among_here rounds idx i e = ground arith

among_away :
    (rounds idx i : ℕ) → (idx == i) ≡ false → among (suc rounds) idx i ≡ among rounds (suc idx) i
among_away rounds idx i e = ground arith

module _ {ℓ} {K V : Type ℓ} ⦃key : Key K⦄ (k : K) where
  push-view :
      (j : K) (v : V) (n : ℕ) (new : List (Chain K V))
      → 0 < n
      → length new ≡ n
      → view n (set new (home j n) ((j, v) ∷ bucket new (home j n))) k
        ≡ (if key.equal j k then some v else view n new k)
  unfolding view find
  push-view j v n new pos width =
      rw
        (get_or-set new (home j n) (home k n) ((j, v) ∷ bucket new (home j n)) []
          (omega (arith, home-lt j n pos, width)))
        (elim (Bool-cases (home j n == home k n)) [
          | inl here ↦ rw (here, (==_iff _ _).0 here)
          | inr away ↦
              let other : key.equal j k ≡ false =
                ground (arith, key.equal_sound j k, ne_of_==_false (home j n) (home k n)) in
              rw (away, other)
        ])

  move_chain-view :
      (es : Chain K V) (n : ℕ) (new : List (Chain K V))
      → 0 < n
      → length new ≡ n
      → count k es ≤ 1
      → Returns
          (move_chain es new n)
          (λ r. (length r ≡ n) × (view n r k ≡ or_else (find k es) (view n new k)))
  unfolding move_chain find count or_else
  move_chain-view [] n new pos width once = (new, refl, (width, refl))
  move_chain-view ((j, v) ∷ es) n new pos width once =
      let (r, run, (width', reads)) =
        move_chain-view es n (set new (home j n) ((j, v) ∷ bucket new (home j n))) pos
          (rw length-set width) (omega arith) in
      (
        r,
        rw (hash-home j n pos, at-get_or new (home j n) [] (omega (arith, home-lt j n pos, width)))
            run,
        (width', ground (arith, reads, push-view j v n new pos width, find-uncounted k es)),
      )

  -- What the loop needs to run, whatever the new table holds.
  pub record IsWide (h : HashTable K V) : Type ℓ where
    pub pos : 0 < h.size
    pub new_pos : 0 < h.rehashing_size
    pub width : length h.table ≡ h.size
    pub new_width : length h.rehashing_tbl ≡ h.rehashing_size
    pub placed : IsPlaced h.size h.table

  bucket-find :
      (h : HashTable K V) (idx : ℕ)
      → IsWide h
      → find k (bucket h.table idx) ≡ (if idx == home k h.size then view h.size h.table k else none)
  unfolding view
  bucket-find h idx w = elim (Bool-cases (idx == home k h.size)) [
    | inl e ↦ rw (e, (==_iff _ _).0 e)
    | inr e ↦
        rw e (find-uncounted k (bucket h.table idx) ((w.placed k idx).1 (ne_of_==_false _ _ e)))
  ]

  -- After the loop the new table reads what the old table held, if the key's bucket has moved.
  pub record Overtaken (rounds idx : ℕ) (h h' : HashTable K V) : Type ℓ where
    pub wide : IsWide h'
    pub stop : ℕ
    pub index : h'.rehashing_idx ≡ some stop
    pub reads : view h'.rehashing_size h'.rehashing_tbl k ≡ (
        if among rounds idx (home k h.size)
        then or_else (view h.size h.table k) (view h.rehashing_size h.rehashing_tbl k)
        else view h.rehashing_size h.rehashing_tbl k)

  IsWide-index :
      (h : HashTable K V) (i : Option ℕ) → IsWide h → IsWide (record h { rehashing_idx = i })
  IsWide-index h i w = record {
    pos = w.pos;
    new_pos = w.new_pos;
    width = w.width;
    new_width = w.new_width;
    placed = w.placed;
  }

  stop-Overtaken :
      (rounds idx : ℕ) (h : HashTable K V)
      → IsWide h
      → among rounds idx (home k h.size) ≡ false
      → Overtaken rounds idx h (record h { rehashing_idx = some idx })
  stop-Overtaken rounds idx h w out = record {
    wide = IsWide-index h (some idx) w;
    stop = idx;
    index = refl;
    reads = rw out;
  }

  -- One round, and the rounds after it.
  round-reads :
      (rounds idx : ℕ) (h : HashTable K V) (new : List (Chain K V)) (o : Option V)
      → idx < length h.table
      → IsWide h
      → view h.rehashing_size new k
        ≡ or_else (find k (bucket h.table idx)) (view h.rehashing_size h.rehashing_tbl k)
      → o ≡ (
          if among rounds (suc idx) (home k h.size)
          then or_else (view h.size (set h.table idx []) k) (view h.rehashing_size new k)
          else view h.rehashing_size new k)
      → o ≡ (
          if among (suc rounds) idx (home k h.size)
          then or_else (view h.size h.table k) (view h.rehashing_size h.rehashing_tbl k)
          else view h.rehashing_size h.rehashing_tbl k)
  unfolding or_else
  round-reads rounds idx h new o inside w moved later =
      let found = bucket-find h idx w in
      let emptied = view-empty h.size h.table idx inside k in
      elim (Bool-cases (idx == home k h.size)) [
        | inl e ↦
            let (out, inn) = among_here rounds idx (home k h.size) e in
            rw inn (rw out at later ∙ moved ∙ rw (rw e at found))
        | inr e ↦
            let new_same : view h.rehashing_size new k ≡ view h.rehashing_size h.rehashing_tbl k =
              moved ∙ rw (rw e at found) in
            rw (among_away rounds idx (home k h.size) e) (rw (rw e at emptied, new_same) at later)
      ]

  pub move_buckets-Overtaken :
      (rounds idx : ℕ) (h : HashTable K V)
      → IsWide h
      → Returns (move_buckets rounds idx h) (Overtaken rounds idx h)
  unfolding move_buckets
  move_buckets-Overtaken zero idx h w = (_, refl, stop-Overtaken 0 idx h w (ground arith))
  move_buckets-Overtaken (suc rounds) idx h w = elim (Bool-cases (ltb idx h.size)) [
    | inr done ↦
        let out : among (suc rounds) idx (home k h.size) ≡ false =
          ground (arith, home-lt k h.size w.pos) in
        (_, rw (done, move_buckets), stop-Overtaken (suc rounds) idx h w out)
    | inl more ↦
        let inside : idx < length h.table = omega (arith, w.width, ltb→lt idx h.size more) in
        let (new, run, (new_width, new_reads)) =
          move_chain-view (bucket h.table idx) h.rehashing_size h.rehashing_tbl w.new_pos
            w.new_width (w.placed k idx).0 in
        let h₁ : HashTable K V = record h { table = set h.table idx []; rehashing_tbl = new } in
        let w₁ : IsWide h₁ = record {
          pos = w.pos;
          new_pos = w.new_pos;
          width = rw length-set w.width;
          new_width = new_width;
          placed = empty-IsPlaced h.size h.table idx inside w.placed;
        } in
        let (h', run', o) = move_buckets-Overtaken rounds (suc idx) h₁ w₁ in
        (
          h',
          rw (more, move_buckets, at-get_or h.table idx [] inside, run) run',
          record {
            wide = o.wide;
            stop = o.stop;
            index = o.index;
            reads = round-reads rounds idx h new _ inside w new_reads o.reads;
          },
        )
  ]
