-- ===== src/Tests/Resp.antt =====
-- The reader and the writer of resp/resp3.go at concrete data.
use go_mock_redis.Base.{
  ◌≡◌, refl, true, [], ◌∷◌, ◌++◌, arith, bytes_eq, codes, crlf, length, ok, fault, none,
  unhashable_key,
}
use go_mock_redis.Base.Lines.{cut}
use go_mock_redis.Base.Decimal.{format}
use go_mock_redis.Base.Signed.{pos, negsuc}
use go_mock_redis.Base.Strconv.{scan, parse_uint, parse_int, atoi}
use go_mock_redis.Resp.{
  Node, array, blob, simple, integer, null, boolean, verbatim, blob_error, dict, nil, cons, empty,
  pair, kind_of, read_kind, is_hashable, put_pair, parse, parse_resp, convert_to_resp,
}
use go_mock_redis.Resp.Encode.{encode, IsPlain, blobs}
use go_mock_redis.Resp.Fuel.{Leaves, parse_resp-Leaves}
use go_mock_redis.Resp.Leftovers.{parse_resp-leftovers}
use go_mock_redis.Resp.RoundTrip.{parse_resp-encode, parse_resp-convert_to_resp}

-- `*2 $2 a CR LF b :-8` and a map of one pair.
abbrev nested : Node
nested = array (
    cons (blob (b'a' ∷ 13 ∷ 10 ∷ b'b' ∷ [])) (
      cons (integer (negsuc 7))
        (cons (dict (pair (simple (codes "k")) (integer (pos 1)) empty)) nil)))

nested-IsPlain : IsPlain bytes_eq nested
unfolding IsPlain is_hashable cut put_pair
nested-IsPlain = (
  omega arith,
  (omega arith, (omega arith, ((omega arith, (refl, omega arith, refl, tt, tt)), tt))),
)

parse_resp-encode_example :
    parse_resp bytes_eq (encode nested ++ codes "+OK") ≡ ok (nested, codes "+OK")
parse_resp-encode_example = parse_resp-encode bytes_eq nested (codes "+OK") nested-IsPlain

parse_resp-convert_to_resp_example :
    parse_resp bytes_eq (convert_to_resp (codes "GET") (codes "a" ∷ []) ++ codes "*")
    ≡ ok (array (blobs (codes "GET" ∷ codes "a" ∷ [])), codes "*")
parse_resp-convert_to_resp_example =
    parse_resp-convert_to_resp bytes_eq (codes "GET") (codes "a" ∷ []) (codes "*") (omega arith)
      (omega arith, (omega arith, tt))

parse_resp-Leaves_example : Leaves (length (codes "*3")) (parse_resp bytes_eq (codes "*3"))
parse_resp-Leaves_example = parse_resp-Leaves bytes_eq (codes "*3")

parse_resp-leftovers_example :
    (parse_resp bytes_eq (encode null ++ codes "x") ≡ ok (null, 10 ∷ codes "x"))
    × (parse_resp bytes_eq (encode (boolean true) ++ codes "x") ≡ ok (boolean true, 10 ∷ codes "x"))
    × (parse_resp bytes_eq (encode (verbatim (b't' ∷ b'x' ∷ b't' ∷ []) (codes "hi")) ++ codes "x")
        ≡ ok (verbatim (b't' ∷ b'x' ∷ b't' ∷ []) (codes "hi"), crlf ++ codes "x"))
    × (parse_resp bytes_eq (encode (blob_error (codes "hi")) ++ codes "x")
        ≡ ok (blob_error (format (length (codes "hi"))), codes "hi" ++ (crlf ++ codes "x")))
parse_resp-leftovers_example =
    parse_resp-leftovers bytes_eq true b't' b'x' b't' (codes "hi") (codes "x") (omega arith)

minus_one-cut : cut (codes "-1") ≡ none
unfolding cut
minus_one-cut = refl

minus_one-atoi : atoi (codes "-1") ≡ negsuc 0
unfolding atoi parse_int parse_uint scan
minus_one-atoi = refl

-- An array cannot be a key.
array_key :
    parse_resp bytes_eq (codes "%1" ++ (crlf ++ (codes "*0" ++ (crlf ++ (codes ":1" ++ crlf)))))
    ≡ fault unhashable_key
unfolding parse_resp parse kind_of read_kind atoi parse_int parse_uint scan cut
array_key = refl
