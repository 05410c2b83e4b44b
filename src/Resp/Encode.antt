-- ===== src/Resp/Encode.antt =====
-- The protocol's own writing of values, and the values that the reader of resp/resp3.go reads as
-- the protocol means them.
use go_mock_redis.Base.{
  ℕ, suc, ◌+◌, ◌^◌, ◌<◌, ◌≡◌, Bool, true, false, none, List, [], ◌∷◌, ◌++◌, Bytes, crlf, length,
}
use go_mock_redis.Base.Lines.{cut}
use go_mock_redis.Base.Decimal.{format}
use go_mock_redis.Base.Strconv.{format_int, IsInt64}
use go_mock_redis.Resp.{
  Node, nothing, array, blob, simple, error, integer, null, double, boolean, blob_error, verbatim,
  big_num, dict, collection, push, Nodes, nil, cons, Pairs, empty, pair, is_hashable, same_key,
  put_pair,
}

abbrev pub count : Nodes → ℕ
count nil = 0
count (cons x xs) = suc (count xs)

abbrev pub count_pairs : Pairs → ℕ
count_pairs empty = 0
count_pairs (pair k v ps) = suc (count_pairs ps)

abbrev pub blobs : List Bytes → Nodes
blobs [] = nil
blobs (arg ∷ args) = cons (blob arg) (blobs args)

-- A line behind its type.
abbrev pub line : ℕ → Bytes → Bytes → Bytes
line t text rest = t ∷ (text ++ (crlf ++ rest))

unfoldable mutual
  pub encode : Node → Bytes
  encode nothing = []
  encode (array xs) = line b'*' (format (count xs)) (encode_nodes xs)
  encode (blob text) = line b'$' (format (length text)) (text ++ crlf)
  encode (simple text) = line b'+' text []
  encode (error text) = line b'-' text []
  encode (integer z) = line b':' (format_int z) []
  encode null = line b'_' [] []
  encode (double text) = line b',' text []
  encode (boolean true) = line b'#' (b't' ∷ []) []
  encode (boolean false) = line b'#' (b'f' ∷ []) []
  encode (blob_error text) = line b'!' (format (length text)) (text ++ crlf)
  encode (verbatim form text) =
      line b'=' (format (length form + 1 + length text)) (form ++ (b':' ∷ (text ++ crlf)))
  encode (big_num text) = line b'(' text []
  encode (dict ps) = line b'%' (format (count_pairs ps)) (encode_pairs ps)
  encode (collection xs) = line b'~' (format (count xs)) (encode_nodes xs)
  encode (push xs) = line b'>' (format (count xs)) (encode_nodes xs)

  pub encode_nodes : Nodes → Bytes
  encode_nodes nil = []
  encode_nodes (cons x xs) = encode x ++ encode_nodes xs

  pub encode_pairs : Pairs → Bytes
  encode_pairs empty = []
  encode_pairs (pair k v ps) = encode k ++ (encode v ++ encode_pairs ps)

module _ (same_float : Bytes → Bytes → Bool) where
  -- No key of the map is the same.
  abbrev pub IsFresh : Node → Pairs → Type 0
  IsFresh k empty = Unit {0}
  IsFresh k (pair l w ps) = (same_key same_float k l ≡ false) × IsFresh k ps

  -- Values of the types that the reader reads as the protocol has them, with sizes and numbers of 64
  -- bits, no CRLF inside a line, and maps whose keys can be hashed and differ.
  unfoldable mutual
    pub IsPlain : Node → Type 0
    IsPlain nothing = ⊥
    IsPlain (array xs) = (count xs < 2 ^ 63) × ArePlain xs
    IsPlain (blob text) = length text < 2 ^ 63
    IsPlain (simple text) = cut text ≡ none
    IsPlain (error text) = cut text ≡ none
    IsPlain (integer z) = IsInt64 z
    IsPlain null = ⊥
    IsPlain (double text) = cut text ≡ none
    IsPlain (boolean b) = ⊥
    IsPlain (blob_error text) = ⊥
    IsPlain (verbatim form text) = ⊥
    IsPlain (big_num text) = cut text ≡ none
    IsPlain (dict ps) = (count_pairs ps < 2 ^ 62) × ArePlainPairs empty ps
    IsPlain (collection xs) = (count xs < 2 ^ 63) × ArePlain xs
    IsPlain (push xs) = (count xs < 2 ^ 63) × ArePlain xs

    pub ArePlain : Nodes → Type 0
    ArePlain nil = Unit {0}
    ArePlain (cons x xs) = IsPlain x × ArePlain xs

    -- Pairs that are read behind others.
    pub ArePlainPairs : Pairs → Pairs → Type 0
    ArePlainPairs before empty = Unit {0}
    ArePlainPairs before (pair k v ps) =
        IsPlain k
        × IsPlain v
        × (is_hashable k ≡ true)
        × IsFresh k before
        × ArePlainPairs (put_pair same_float k v before) ps
