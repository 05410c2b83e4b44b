-- ===== src/Resp/RoundTrip.antt =====
-- `parseRESP` reads back what the protocol writes, whatever follows, and `ConvertToRESP` writes the
-- protocol's array of blobs.
use go_mock_redis.Base.{
  ℕ, zero, suc, ◌+◌, ◌^◌, ◌<◌, ◌≡◌, refl, ap, Bool, true, false, none, List, [], ◌∷◌, ◌++◌, arith,
  append_assoc, ◌==◌, leb, take-append_length, Bytes, crlf, length, drop, length-append, ok, ◌>>=◌,
}
use go_mock_redis.Base.Lines.{cut, cut-append, cut-behind, cut-format, cut-format_int}
use go_mock_redis.Base.Decimal.{format}
use go_mock_redis.Base.Signed.{pos}
use go_mock_redis.Base.Strconv.{atoi, format_int, atoi-format, atoi-format_int}
use go_mock_redis.Resp.{
  Node, nothing, array, blob, simple, error, integer, null, double, boolean, blob_error, verbatim,
  big_num, dict, collection, push, Nodes, nil, cons, Pairs, empty, pair, put_pair, Reader, header,
  read_line, read_blob, take_blob, read_nodes, counted, read_aggregate, map_rounds, assign,
  read_pairs, read_map, kind_of, read_kind, parse, parse_resp, bulk, bulks, convert_to_resp,
}
use go_mock_redis.Resp.Encode.{
  count, count_pairs, blobs, line, encode, encode_nodes, encode_pairs, IsFresh, IsPlain, ArePlain,
  ArePlainPairs,
}

drop-past : (text rest : Bytes) (n : ℕ) → drop (length text + n) (text ++ rest) ≡ drop n rest
drop-past [] rest n = let e : 0 + n ≡ n = omega arith in rw e refl
drop-past (c ∷ s) rest n =
    let e : suc (length s) + n ≡ suc (length s + n) = omega arith in rw e (drop-past s rest n)

-- A blob is its text, with the two bytes behind it left out.
take_blob-append :
    (text rest : Bytes)
    → take_blob (pos (length text)) (text ++ (13 ∷ 10 ∷ rest)) ≡ ok (blob text, rest)
unfolding take_blob
take_blob-append text rest =
    rw (enough text rest, take-append_length, drop-past text (13 ∷ 10 ∷ rest) 2) refl
  where
    enough : (text rest : Bytes) → leb (length text + 2) (length (text ++ (13 ∷ 10 ∷ rest))) ≡ true
    enough text rest = ground (arith, length-append text (13 ∷ 10 ∷ rest))

module _ (t : ℕ) (mark : (t == 13) ≡ false) where
  -- A header is read up to its CRLF.
  pub header_line :
      (text rest : Bytes)
      → cut text ≡ none
      → header (t ∷ (text ++ (13 ∷ 10 ∷ rest))) ≡ ok (text, rest)
  unfolding header
  header_line text rest h = rw (header, cut-append (t ∷ text) rest (cut-behind t text mark h)) refl

  read_line-line :
      (make : Bytes → Node) (text rest : Bytes)
      → cut text ≡ none
      → read_line make (t ∷ (text ++ (13 ∷ 10 ∷ rest))) ≡ ok (make text, rest)
  unfolding read_line
  read_line-line make text rest h = rw (header_line text rest h)

  read_aggregate-line :
      (make : Nodes → Node) (call : Reader Node) (xs : Nodes) (s rest : Bytes)
      → count xs < 2 ^ 63
      → read_nodes call (count xs) s ≡ ok (xs, rest)
      → read_aggregate make call (t ∷ (format (count xs) ++ (13 ∷ 10 ∷ s))) ≡ ok (make xs, rest)
  unfolding read_aggregate
  read_aggregate-line make call xs s rest h e =
      rw
        (
          header_line (format (count xs)) s (cut-format (count xs)),
          ◌>>=◌,
          atoi-format (count xs) h,
          counted,
          e,
          ◌>>=◌,
        )
        refl

  read_blob-line :
      (text rest : Bytes)
      → length text < 2 ^ 63
      → read_blob (t ∷ (format (length text) ++ (13 ∷ 10 ∷ (text ++ (13 ∷ 10 ∷ rest)))))
        ≡ ok (blob text, rest)
  unfolding read_blob
  read_blob-line text rest h =
      rw
        (
          header_line (format (length text)) (text ++ (13 ∷ 10 ∷ rest)) (cut-format (length text)),
          ◌>>=◌,
          atoi-format (length text) h,
        )
        (take_blob-append text rest)

all_rounds : (n : ℕ) → n < 2 ^ 62 → map_rounds (pos n) ≡ n
unfolding map_rounds
all_rounds n h = ground arith

-- What stands behind a line, in front of more data, is shorter.
shorter :
    (t : ℕ) (text s rest : Bytes) {fuel : ℕ}
    → length (line t text s ++ rest) < suc fuel
    → length (s ++ rest) < fuel
shorter t text s rest h = omega (
  arith,
  length-append {0} (text ++ (crlf ++ s)) rest,
  length-append {0} text (crlf ++ s),
  length-append {0} s rest,
)

regroup :
    (a b rest : Bytes) {fuel : ℕ}
    → length ((a ++ b) ++ rest) < fuel
    → length (a ++ (b ++ rest)) < fuel
regroup a b rest h = rw append_assoc at h

later_part :
    (a b rest : Bytes) {fuel : ℕ} → length ((a ++ b) ++ rest) < fuel → length (b ++ rest) < fuel
later_part a b rest h = omega (arith, length-append {0} a (b ++ rest), regroup a b rest h)

-- Pairs that were read, with those that are still to be read put behind them.
join : Pairs → Pairs → Pairs
join empty qs = qs
join (pair k v ps) qs = pair k v (join ps qs)

join-empty : (ps : Pairs) → join ps empty ≡ ps
unfolding join
join-empty empty = refl
join-empty (pair k v ps) = ap (pair k v) (join-empty ps)

module _ (same_float : Bytes → Bytes → Bool) where
  put_pair-join :
      (k v : Node) (ps qs : Pairs)
      → IsFresh same_float k ps
      → join (put_pair same_float k v ps) qs ≡ join ps (pair k v qs)
  unfolding join put_pair
  put_pair-join k v empty qs h = refl
  put_pair-join k v (pair l w ps) qs h =
      rw (h.0, join) (ap (pair l w) (put_pair-join k v ps qs h.1))

  read_map-line :
      (t : ℕ) (mark : (t == 13) ≡ false) (call : Reader Node) (ps : Pairs) (s rest : Bytes)
      → count_pairs ps < 2 ^ 62
      → read_pairs same_float call (count_pairs ps) empty s ≡ ok (ps, rest)
      → read_map same_float call (t ∷ (format (count_pairs ps) ++ (13 ∷ 10 ∷ s)))
        ≡ ok (dict ps, rest)
  unfolding read_map
  read_map-line t mark call ps s rest h e =
      let n = count_pairs ps in
      rw
        (
          header_line t mark (format n) s (cut-format n),
          ◌>>=◌,
          atoi-format n (omega arith),
          all_rounds n h,
          e,
          ◌>>=◌,
        )
        refl

  mutual
    unfolding join encode IsPlain parse read_kind kind_of read_nodes read_pairs assign read_map

    -- The reader gives back a plain value, with what stands behind it, however often it may nest
    -- beyond the length of the data.
    parse-encode :
        (fuel : ℕ) (x : Node) (rest : Bytes)
        → IsPlain same_float x
        → length (encode x ++ rest) < fuel
        → parse same_float fuel (encode x ++ rest) ≡ ok (x, rest)
    parse-encode zero x rest p h = absurd (omega arith)
    parse-encode (suc fuel) nothing rest p h = elim p [ ]
    parse-encode (suc fuel) (array xs) rest p h = rw append_assoc (
        read_aggregate-line b'*' refl array (parse same_float fuel) xs (encode_nodes xs ++ rest)
          rest p.0
          (nodes-encode fuel xs rest p.1
            (shorter b'*' (format (count xs)) (encode_nodes xs) rest h)))
    parse-encode (suc fuel) (blob text) rest p h =
        rw (append_assoc, append_assoc text crlf rest) (read_blob-line b'$' refl text rest p)
    parse-encode (suc fuel) (simple text) rest p h =
        rw append_assoc (read_line-line b'+' refl simple text rest p)
    parse-encode (suc fuel) (error text) rest p h =
        rw append_assoc (read_line-line b'-' refl error text rest p)
    parse-encode (suc fuel) (integer z) rest p h =
        rw
          (
            append_assoc,
            read_line-line b':' refl (λ text. integer (atoi text)) (format_int z) rest
                (cut-format_int z),
            atoi-format_int z p,
          )
          refl
    parse-encode (suc fuel) null rest p h = elim p [ ]
    parse-encode (suc fuel) (double text) rest p h =
        rw append_assoc (read_line-line b',' refl double text rest p)
    parse-encode (suc fuel) (boolean b) rest p h = elim p [ ]
    parse-encode (suc fuel) (blob_error text) rest p h = elim p [ ]
    parse-encode (suc fuel) (verbatim form text) rest p h = elim p [ ]
    parse-encode (suc fuel) (big_num text) rest p h =
        rw append_assoc (read_line-line b'(' refl big_num text rest p)
    parse-encode (suc fuel) (dict ps) rest p h = rw append_assoc (
        read_map-line b'%' refl (parse same_float fuel) ps (encode_pairs ps ++ rest) rest p.0 (
          pairs-encode fuel empty ps rest p.1
            (shorter b'%' (format (count_pairs ps)) (encode_pairs ps) rest h)))
    parse-encode (suc fuel) (collection xs) rest p h = rw append_assoc (
        read_aggregate-line b'~' refl collection (parse same_float fuel) xs
          (encode_nodes xs ++ rest) rest p.0
          (nodes-encode fuel xs rest p.1
            (shorter b'~' (format (count xs)) (encode_nodes xs) rest h)))
    parse-encode (suc fuel) (push xs) rest p h = rw append_assoc (
        read_aggregate-line b'>' refl push (parse same_float fuel) xs (encode_nodes xs ++ rest) rest
          p.0
          (nodes-encode fuel xs rest p.1
            (shorter b'>' (format (count xs)) (encode_nodes xs) rest h)))

    nodes-encode :
        (fuel : ℕ) (xs : Nodes) (rest : Bytes)
        → ArePlain same_float xs
        → length (encode_nodes xs ++ rest) < fuel
        → read_nodes (parse same_float fuel) (count xs) (encode_nodes xs ++ rest) ≡ ok (xs, rest)
    nodes-encode fuel nil rest p h = refl
    nodes-encode fuel (cons x xs) rest p h =
        rw
          (
            append_assoc,
            parse-encode fuel x (encode_nodes xs ++ rest) p.0
                (regroup (encode x) (encode_nodes xs) rest h),
            ◌>>=◌,
            nodes-encode fuel xs rest p.1 (later_part (encode x) (encode_nodes xs) rest h),
            ◌>>=◌,
          )
          refl

    pairs-encode :
        (fuel : ℕ) (before ps : Pairs) (rest : Bytes)
        → ArePlainPairs same_float before ps
        → length (encode_pairs ps ++ rest) < fuel
        → read_pairs same_float
            (parse same_float fuel)
            (count_pairs ps)
            before
            (encode_pairs ps ++ rest)
          ≡ ok (join before ps, rest)
    pairs-encode fuel before empty rest p h = rw join-empty refl
    pairs-encode fuel before (pair k v ps) rest p h =
        let h' = regroup (encode k) (encode v ++ encode_pairs ps) rest h in
        let h'' = later_part (encode k) (encode v ++ encode_pairs ps) rest h in
        rw
          (
            append_assoc,
            parse-encode fuel k ((encode v ++ encode_pairs ps) ++ rest) p.0 h',
            ◌>>=◌,
            append_assoc,
            parse-encode fuel v (encode_pairs ps ++ rest) p.1
                (regroup (encode v) (encode_pairs ps) rest h''),
            ◌>>=◌,
            p.2,
            ◌>>=◌,
            pairs-encode fuel (put_pair same_float k v before) ps rest p.4
                (later_part (encode v) (encode_pairs ps) rest h''),
            put_pair-join k v before ps p.3,
          )
          refl

  -- `parseRESP` on what the protocol writes for a value, with any bytes behind it, does not fail
  -- and gives back the value and these bytes. The value is an array, set, push, map, blob, line,
  -- error, double, big number or integer, nested in any way, with sizes below 2^63, below 2^62 for
  -- maps, with integers of 64 bits, no CRLF inside a line, and maps whose keys can be hashed and
  -- differ.
  pub parse_resp-encode :
      (x : Node) (rest : Bytes)
      → IsPlain same_float x
      → parse_resp same_float (encode x ++ rest) ≡ ok (x, rest)
  unfolding parse_resp
  parse_resp-encode x rest p = parse-encode (suc (length (encode x ++ rest))) x rest p (omega arith)

bulks-encode : (args : List Bytes) → bulks args ≡ encode_nodes (blobs args)
unfolding bulks encode
bulks-encode [] = refl
bulks-encode (arg ∷ args) = rw (bulks-encode args) refl

count-blobs : (args : List Bytes) → count (blobs args) ≡ length args
count-blobs [] = refl
count-blobs (arg ∷ args) = ap suc (count-blobs args)

convert_to_resp-encode :
    (command : Bytes) (args : List Bytes)
    → convert_to_resp command args ≡ encode (array (blobs (command ∷ args)))
unfolding convert_to_resp encode bulk
convert_to_resp-encode command args =
    let e : length args + 1 ≡ suc (length args) = omega arith in
    rw (bulks-encode args, count-blobs args, e) refl

-- Arguments whose number and lengths fit in an `int`.
abbrev pub AreSized : List Bytes → Type 0
AreSized [] = Unit {0}
AreSized (arg ∷ args) = (length arg < 2 ^ 63) × AreSized args

blobs-ArePlain :
    (same_float : Bytes → Bytes → Bool) (args : List Bytes)
    → AreSized args
    → ArePlain same_float (blobs args)
unfolding IsPlain
blobs-ArePlain same_float [] h = tt
blobs-ArePlain same_float (arg ∷ args) h = (h.0, blobs-ArePlain same_float args h.1)

-- What `ConvertToRESP` writes for a command and its arguments, whatever bytes they hold, is read
-- by `parseRESP` as the array of their blobs, and the bytes behind it are left, provided that
-- their lengths and their number are below 2^63.
pub parse_resp-convert_to_resp :
    (same_float : Bytes → Bytes → Bool) (command : Bytes) (args : List Bytes) (rest : Bytes)
    → suc (length args) < 2 ^ 63
    → AreSized (command ∷ args)
    → parse_resp same_float (convert_to_resp command args ++ rest)
      ≡ ok (array (blobs (command ∷ args)), rest)
unfolding IsPlain
parse_resp-convert_to_resp same_float command args rest few h =
    rw (convert_to_resp-encode command args) (
      parse_resp-encode same_float (array (blobs (command ∷ args))) rest
        (rw (count-blobs args) few, blobs-ArePlain same_float (command ∷ args) h))
