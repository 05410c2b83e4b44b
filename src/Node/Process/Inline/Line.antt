-- ===== src/Node/Process/Inline/Line.antt =====
-- node/client.go, `processInlineBuffer`: a whole line of words at the start of the buffer, and the
-- buffers that it fails on.
use go_mock_redis.Base.{
  ℕ, zero, suc, ◌+◌, ◌-◌, ◌^◌, ◌<◌, ◌≤◌, ◌≡◌, refl, sym, ap, ◌∙◌, ◌⊎◌, inl, inr, Bool, true, false,
  ◌&&◌, ◌==◌, leb, Bool-cases, Option, none, some, List, [], ◌∷◌, ◌++◌, map, append_assoc,
  append-nil, arith, Bytes, length, length-append, take-append_length, drop, get_or, replicate, ok,
  fault, Fault, ◌>>=◌, Returns,
}
use go_mock_redis.Db.Dict.{at}
use go_mock_redis.Db.Dict.Buckets.{at-get_or}
use go_mock_redis.Db.Object.{RedisObj, string_type, str}
use go_mock_redis.Node.Flags.{slave, bit}
use go_mock_redis.Node.Client.{create_object}
use go_mock_redis.Node.Process.Input.{slice_from}
use go_mock_redis.Node.Process.Inline.Fields.{IsVisible, AreWords, joined, fields-joined}
use go_mock_redis.Node.Process.Inline.{
  fields, index_byte, Inline, append_argument, proto_inline_max_size, refuse_big, line_end,
  slice_line, new_arguments, append_arguments, acknowledge, pass_line, take_arguments,
  read_arguments, process_inline_buffer,
}

-- No control byte.
abbrev IsPrintable : Bytes → Type 0
IsPrintable [] = Unit {0}
IsPrintable (c ∷ s) = (31 < c) × IsPrintable s

append-IsPrintable : (w s : Bytes) → IsVisible w → IsPrintable s → IsPrintable (w ++ s)
append-IsPrintable [] s h k = k
append-IsPrintable (c ∷ w) s h k = (omega (arith, h.0.0), append-IsPrintable w s h.1 k)

visible-IsPrintable : (w : Bytes) → IsVisible w → IsPrintable w
visible-IsPrintable [] h = tt
visible-IsPrintable (c ∷ w) h = (omega (arith, h.0.0), visible-IsPrintable w h.1)

joined-IsPrintable : (ws : List Bytes) → AreWords ws → IsPrintable (joined ws)
joined-IsPrintable [] h = tt
joined-IsPrintable (w ∷ []) h = visible-IsPrintable w h.0.0
joined-IsPrintable (w ∷ v ∷ ws) h =
    append-IsPrintable w (32 ∷ joined (v ∷ ws)) h.0.0 (omega arith, joined-IsPrintable (v ∷ ws) h.1)

index_byte-line :
    (line rest : Bytes)
    → IsPrintable line
    → index_byte (line ++ (13 ∷ 10 ∷ rest)) 10 ≡ some (suc (length line))
unfolding index_byte
index_byte-line [] rest h = refl
index_byte-line (c ∷ line) rest h =
    let other : (c == 10) ≡ false = ground (arith, h.0) in
    rw (other, index_byte-line line rest h.1) refl

at-append : (line : Bytes) (c : ℕ) (s : Bytes) → at (line ++ (c ∷ s)) (length line) ≡ ok c
unfolding at
at-append [] c s = refl
at-append (d ∷ line) c s = at-append line c s

slice_line-append : (line s : Bytes) → slice_line (line ++ s) 0 (length line) ≡ ok line
unfolding slice_line
slice_line-append line s =
    let fits : leb (length line) (length (line ++ s)) ≡ true =
      ground (arith, length-append line s) in
    let starts : leb 0 (length line) ≡ true = ground arith in
    let all : length line - 0 ≡ length line = omega arith in
    rw (starts, fits, all, take-append_length) refl

abbrev pub objects : List Bytes → List (Option RedisObj)
objects ws = map (λ w. some (create_object string_type (str w))) ws

append_arguments-objects :
    (ws : List Bytes) (c : Inline)
    → ((append_arguments c ws).argv ≡ c.argv ++ objects ws)
      × ((append_arguments c ws).session.client.argc ≡ c.session.client.argc + length ws)
      × ((append_arguments c ws).session.query_pos ≡ c.session.query_pos)
      × ((append_arguments c ws).argv_len ≡ c.argv_len)
unfolding append_arguments
append_arguments-objects [] c = (sym (append-nil c.argv), omega arith, refl, refl)
append_arguments-objects (w ∷ ws) c =
    let (argv, argc, pos, n) = append_arguments-objects ws (append_argument c w) in
    (argv ∙ append_assoc c.argv (objects (w ∷ [])) (objects ws), omega (arith, argc), pos, n)

line_end-line :
    (line rest : Bytes)
    → line_end (line ++ (13 ∷ 10 ∷ rest)) (suc (length line)) ≡ ok (length line, 2)
unfolding line_end
line_end-line line rest =
    let inside : (suc (length line) == 0) ≡ false = ground arith in
    let before : suc (length line) - 1 ≡ length line = omega arith in
    rw (inside, before, at-append line 13 (10 ∷ rest)) refl

-- The line's arguments stand behind as many that are nil.
abbrev pub IsRead : Inline → List Bytes → Inline × Bool → Type 0
IsRead c ws r =
    (r.1 ≡ true)
    × (r.0.argv ≡ replicate (length ws) none ++ objects ws)
    × (r.0.argv_len ≡ length ws)
    × (r.0.session.client.argc ≡ c.session.client.argc + length ws)
    × (r.0.session.query_pos ≡ length (joined ws) + 2)

pass_line-keeps :
    (now n chars : ℕ) (c : Inline)
    → ((pass_line now n chars c).session
        ≡ record c.session { query_pos = c.session.query_pos + (n + chars) })
      × ((pass_line now n chars c).argv ≡ c.argv)
unfolding pass_line acknowledge
pass_line-keeps now n chars c =
    elim (Bool-cases (n == 0 && c.session.client.flags == 2 ^ bit slave)) [
      | inl t ↦ (rw t refl, rw t refl)
      | inr f ↦ (rw f refl, rw f refl)
    ]

take_arguments-objects :
    (c : Inline) (w : Bytes) (ws : List Bytes)
    → ((take_arguments c (w ∷ ws)).argv ≡ replicate (length (w ∷ ws)) none ++ objects (w ∷ ws))
      × ((take_arguments c (w ∷ ws)).session.client.argc ≡ c.session.client.argc + length (w ∷ ws))
      × ((take_arguments c (w ∷ ws)).session.query_pos ≡ c.session.query_pos)
      × ((take_arguments c (w ∷ ws)).argv_len ≡ length (w ∷ ws))
unfolding take_arguments new_arguments
take_arguments-objects c w ws = append_arguments-objects (w ∷ ws) (new_arguments c (w ∷ ws))

module _ (now : ℕ) (c : Inline) (rest : Bytes) where
  read_arguments-line :
      (line s : Bytes)
      → c.session.query_buf ≡ line ++ s
      → c.session.query_pos ≡ 0
      → read_arguments now c (length line) 2
        ≡ ok (
          take_arguments (pass_line now (length line - c.session.query_pos) 2 c) (fields line),
          true,
        )
  unfolding read_arguments
  read_arguments-line line s buf pos =
      let cut : slice_line c.session.query_buf c.session.query_pos (length line) ≡ ok line =
        rw (buf, pos) (slice_line-append line s) in
      rw (cut, ◌>>=◌) refl

  slice_from-start : (s : Bytes) → slice_from s 0 ≡ ok s
  unfolding slice_from
  slice_from-start s = let starts : leb 0 (length s) ≡ true = ground arith in rw starts refl

  process_inline_buffer-run :
      (line : Bytes)
      → IsPrintable line
      → c.session.query_buf ≡ line ++ (13 ∷ 10 ∷ rest)
      → c.session.query_pos ≡ 0
      → process_inline_buffer now c ≡ read_arguments now c (length line) 2
  unfolding process_inline_buffer
  process_inline_buffer-run line h buf pos =
      let waiting : slice_from c.session.query_buf c.session.query_pos
          ≡ ok (line ++ (13 ∷ 10 ∷ rest)) =
        rw (buf, pos) (slice_from-start _) in
      let ends : line_end c.session.query_buf (suc (length line)) ≡ ok (length line, 2) =
        rw buf (line_end-line line rest) in
      rw (waiting, ◌>>=◌, index_byte-line line rest h, ends) refl

  -- `processInlineBuffer` on a buffer that begins with one or more words of visible ASCII bytes,
  -- with one space between each two and CRLF behind, read from its start, succeeds, moves the
  -- position behind the line, and counts the words; the arguments are as many nils as there are
  -- words, and behind them an object for each word.
  pub process_inline_buffer-IsRead :
      (w : Bytes) (ws : List Bytes)
      → AreWords (w ∷ ws)
      → c.session.query_buf ≡ joined (w ∷ ws) ++ (13 ∷ 10 ∷ rest)
      → c.session.query_pos ≡ 0
      → Returns (process_inline_buffer now c) (IsRead c (w ∷ ws))
  process_inline_buffer-IsRead w ws h buf pos =
      let line = joined (w ∷ ws) in
      let passed = pass_line now (length line - c.session.query_pos) 2 c in
      let (session, kept) = pass_line-keeps now (length line - c.session.query_pos) 2 c in
      let (argv, argc, at_end, n) = take_arguments-objects passed w ws in
      (
        (take_arguments passed (w ∷ ws), true),
        process_inline_buffer-run line (joined-IsPrintable (w ∷ ws) h) buf pos
            ∙ read_arguments-line line (13 ∷ 10 ∷ rest) buf pos
            ∙ ap (λ v. ok (take_arguments passed v, true)) (fields-joined (w ∷ ws) h),
        (
          refl,
          argv,
          n,
          argc ∙ ap (λ q. q.client.argc + length (w ∷ ws)) session,
          at_end ∙ ap (λ q. q.query_pos) session ∙ omega (arith, pos),
        ),
      )

line_end-back : (buf : Bytes) (p : ℕ) → p ≤ length buf → Returns (line_end buf p) (λ r. r.0 ≤ p)
unfolding line_end
line_end-back buf zero h = ((0, 1), refl, omega arith)
line_end-back buf (suc p) h =
    let inside : (suc p == 0) ≡ false = ground arith in
    let before : suc p - 1 ≡ p = omega arith in
    elim (Bool-cases (get_or buf p 0 == 13)) [
      | inl cr ↦ (
        (p, 2),
        rw (inside, before, at-get_or buf p 0 (omega arith), ◌>>=◌, cr) refl,
        omega arith,
      )
      | inr other ↦ (
        (suc p, 1),
        rw (inside, before, at-get_or buf p 0 (omega arith), ◌>>=◌, other) refl,
        omega arith,
      )
    ]

read_arguments-early :
    (now : ℕ) (c : Inline) (q chars : ℕ)
    → q < c.session.query_pos
    → read_arguments now c q chars ≡ fault Fault.out_of_range
unfolding read_arguments slice_line
read_arguments-early now c q chars early =
    let above : leb c.session.query_pos q ≡ false = ground arith in rw above refl

-- `processInlineBuffer` panics where less than 64 KB wait and no line feed is among them, and
-- where the line feed is nearer to the position than the position to the start of the buffer.
pub process_inline_buffer-faults :
    (now : ℕ) (c : Inline)
    → c.session.query_pos ≤ length c.session.query_buf
    → ((index_byte (drop c.session.query_pos c.session.query_buf) 10 ≡ none)
        × (length c.session.query_buf - c.session.query_pos < proto_inline_max_size))
      ⊎ ((p : ℕ) × (index_byte (drop c.session.query_pos c.session.query_buf) 10 ≡ some p)
          × (p < c.session.query_pos))
    → process_inline_buffer now c ≡ fault Fault.out_of_range
unfolding process_inline_buffer slice_from refuse_big
process_inline_buffer-faults now c within (inl (e, small)) =
    let starts : leb c.session.query_pos (length c.session.query_buf) ≡ true = ground arith in
    let short : leb proto_inline_max_size (length c.session.query_buf - c.session.query_pos)
        ≡ false =
      ground arith in
    rw (starts, ◌>>=◌, e, short) refl
process_inline_buffer-faults now c within (inr (p, e, early)) =
    let starts : leb c.session.query_pos (length c.session.query_buf) ≡ true = ground arith in
    let (r, run, back) = line_end-back c.session.query_buf p (omega arith) in
    rw (starts, ◌>>=◌, e, run) (read_arguments-early now c r.0 r.1 (omega (arith, back)))
