-- ===== src/Resp.antt =====
-- resp/resp.go and resp/resp3.go: the values of the protocol, their reader `parseRESP` and the
-- writer of commands `ConvertToRESP`. A value of type Double keeps the text that `ParseFloat` reads.
pub mod Fuel
pub mod Encode
pub mod RoundTrip
pub mod Leftovers
use go_mock_redis.Base.{
  ℕ, zero, suc, ◌+◌, ◌-◌, ◌^◌, Bool, true, false, ◌&&◌, ◌||◌, none, some, List, [], ◌∷◌, ◌++◌, ltb,
  leb, ◌==◌, if◌then◌else◌, Bytes, bytes_eq, crlf, length, take, drop, Run, ok, fault, out_of_range,
  unhashable_key, no_fuel, ◌>>=◌,
}
use go_mock_redis.Base.Lines.{cut}
use go_mock_redis.Base.Decimal.{format}
use go_mock_redis.Base.Signed.{ℤ, pos, negsuc}
use go_mock_redis.Base.Strconv.{atoi}

-- `Node`; `nothing` is the nil interface. The elements of a Map are listed in the order of their
-- keys' first appearance.
mutual
  pub data Node : Type 0 where
    nothing : Node
    array : Nodes → Node
    blob : Bytes → Node
    simple : Bytes → Node
    error : Bytes → Node
    integer : ℤ → Node
    null : Node
    double : Bytes → Node
    boolean : Bool → Node
    blob_error : Bytes → Node
    verbatim : (form value : Bytes) → Node
    big_num : Bytes → Node
    dict : Pairs → Node
    collection : Nodes → Node
    push : Nodes → Node

  pub data Nodes : Type 0 where
    nil : Nodes
    cons : Node → Nodes → Nodes

  pub data Pairs : Type 0 where
    empty : Pairs
    pair : (key value : Node) → Pairs → Pairs

-- The constants `TypeArray` to `TypeBignum`.
pub data Kind : Type 0 where
  type_array type_blob type_integer type_simple type_error type_blob_error type_boolean : Kind
  type_verbatim type_null type_double type_bignum type_set type_map type_push : Kind
  type_attribute type_unknown : Kind

-- The switch on the first byte.
unfoldable pub kind_of : ℕ → Kind
kind_of t =
    if t == b'*'
    then type_array
    else if t == b'$'
    then type_blob
    else if t == b':'
    then type_integer
    else if t == b'+'
    then type_simple
    else if t == b'-'
    then type_error
    else if t == b'!'
    then type_blob_error
    else if t == b'#'
    then type_boolean
    else if t == b'='
    then type_verbatim
    else if t == b'_'
    then type_null
    else if t == b','
    then type_double
    else if t == b'('
    then type_bignum
    else if t == b'~'
    then type_set
    else if t == b'%'
    then type_map
    else if t == b'>'
    then type_push
    else if t == b'|'
    then type_attribute
    else type_unknown

abbrev pub Reader : Type 0 → Type 0
Reader A = Bytes → Run (A × Bytes)

-- `s[n:]`
unfoldable pub skip : ℕ → Bytes → Run Bytes
skip n s = if leb n (length s) then ok (drop n s) else fault out_of_range

-- `parts[0][1:]` and `parts[1]` of `bytes.SplitN(data, CRLF, 2)`.
unfoldable pub header : Reader Bytes
unfolding cut
header s = elim (cut s) [ none ↦ fault out_of_range | some (line, rest) ↦ ok (drop 1 line, rest) ]

-- A value of one line.
unfoldable pub read_line : (Bytes → Node) → Reader Node
unfolding header
read_line make s = do (line, rest) ← header s; ok (make line, rest)

-- `BlobString`: the slices reach past the end of the data unless the text and two bytes are there.
unfoldable pub take_blob : ℤ → Reader Node
take_blob (negsuc n) s = fault out_of_range
take_blob (pos n) s =
    if leb (n + 2) (length s) then ok (blob (take n s), drop (n + 2) s) else fault out_of_range

unfoldable pub read_blob : Reader Node
unfolding header take_blob
read_blob s = do (line, rest) ← header s; take_blob (atoi line) rest

-- `VerbatimString`: a format of three bytes, one byte that is skipped, and the value up to the
-- length, which counts from the format on. What follows the value is left.
unfoldable pub take_verbatim : ℤ → Reader Node
take_verbatim (negsuc n) s = fault out_of_range
take_verbatim (pos n) s =
    if leb 4 n && leb n (length s)
    then ok (verbatim (take 3 s) (take (n - 4) (drop 4 s)), drop n s)
    else fault out_of_range

unfoldable pub read_verbatim : Reader Node
unfolding header take_verbatim
read_verbatim s = do (line, rest) ← header s; take_verbatim (atoi line) rest

-- `Boolean`: the second byte decides, and three bytes are taken.
unfoldable pub read_boolean : Reader Node
unfolding skip
read_boolean [] = fault out_of_range
read_boolean (t ∷ []) = fault out_of_range
read_boolean (t ∷ c ∷ s) = do
  rest ← skip 3 (t ∷ c ∷ s)
  ok (boolean ((c == b't') || (c == b'T')), rest)

-- `Null`: two bytes are taken.
unfoldable pub read_null : Reader Node
unfolding skip
read_null s = do rest ← skip 2 s; ok (null, rest)

-- `count` values in a row; `call` is the recursive call of the reader.
unfoldable pub read_nodes : Reader Node → ℕ → Reader Nodes
read_nodes call zero s = ok (nil, s)
read_nodes call (suc n) s = do
  (x, later) ← call s
  (xs, rest) ← read_nodes call n later
  ok (cons x xs, rest)

-- `make([]Node, count)` panics on a negative count.
unfoldable pub counted : Reader Node → ℤ → Reader Nodes
unfolding read_nodes
counted call (negsuc n) s = fault out_of_range
counted call (pos n) s = read_nodes call n s

unfoldable pub read_aggregate : (Nodes → Node) → Reader Node → Reader Node
unfolding header counted
read_aggregate make call s = do
  (line, rest) ← header s
  (xs, left) ← counted call (atoi line) rest
  ok (make xs, left)

-- How often `for i := 0; i < count*2; i += 2` goes round, with the product in 64 bits.
unfoldable pub map_rounds : ℤ → ℕ
map_rounds (pos n) = if ltb n (2 ^ 62) then n else 0
map_rounds (negsuc n) = if leb (n + 1) (2 ^ 62) then 0 else 2 ^ 63 - (n + 1)

-- A slice or a map inside a key cannot be hashed.
unfoldable pub is_hashable : Node → Bool
is_hashable (array xs) = false
is_hashable (dict ps) = false
is_hashable (collection xs) = false
is_hashable (push xs) = false
is_hashable _ = true

unfoldable pub int_eq : ℤ → ℤ → Bool
int_eq (pos a) (pos b) = a == b
int_eq (negsuc a) (negsuc b) = a == b
int_eq _ _ = false

abbrev bool_eq : Bool → Bool → Bool
bool_eq true b = b
bool_eq false true = false
bool_eq false false = true

-- `==` on interfaces, where the values can be hashed: one dynamic type and equal fields.
-- `same_float` tells whether `ParseFloat` reads equal numbers from two texts.
unfoldable pub same_key : (same_float : Bytes → Bytes → Bool) → Node → Node → Bool
unfolding int_eq
same_key same_float nothing nothing = true
same_key same_float (blob a) (blob b) = bytes_eq a b
same_key same_float (simple a) (simple b) = bytes_eq a b
same_key same_float (error a) (error b) = bytes_eq a b
same_key same_float (integer a) (integer b) = int_eq a b
same_key same_float null null = true
same_key same_float (double a) (double b) = same_float a b
same_key same_float (boolean a) (boolean b) = bool_eq a b
same_key same_float (blob_error a) (blob_error b) = bytes_eq a b
same_key same_float (verbatim f a) (verbatim g b) = bytes_eq f g && bytes_eq a b
same_key same_float (big_num a) (big_num b) = bytes_eq a b
same_key same_float _ _ = false

unfoldable pub put_pair : (Bytes → Bytes → Bool) → Node → Node → Pairs → Pairs
unfolding same_key
put_pair same_float k v empty = pair k v empty
put_pair same_float k v (pair l w ps) =
    let later = pair l w (put_pair same_float k v ps) in
    if same_key same_float k l then pair l v ps else later

-- `m.Elements[key] = value`
unfoldable pub assign : (Bytes → Bytes → Bool) → Node → Node → Pairs → Run Pairs
unfolding is_hashable put_pair
assign same_float k v ps =
    if is_hashable k then ok (put_pair same_float k v ps) else fault unhashable_key

-- The loop of Map and of Attribute.
unfoldable pub read_pairs : (Bytes → Bytes → Bool) → Reader Node → ℕ → Pairs → Reader Pairs
unfolding assign
read_pairs same_float call zero ps s = ok (ps, s)
read_pairs same_float call (suc n) ps s = do
  (k, middle) ← call s
  (v, later) ← call middle
  qs ← assign same_float k v ps
  read_pairs same_float call n qs later

unfoldable pub read_map : (Bytes → Bytes → Bool) → Reader Node → Reader Node
unfolding header read_pairs map_rounds
read_map same_float call s = do
  (line, rest) ← header s
  (ps, left) ← read_pairs same_float call (map_rounds (atoi line)) empty rest
  ok (dict ps, left)

-- The attributes are dropped and the payload behind them is the value.
unfoldable pub read_attribute : (Bytes → Bytes → Bool) → Reader Node → Reader Node
unfolding header read_pairs map_rounds
read_attribute same_float call s = do
  (line, rest) ← header s
  (ps, left) ← read_pairs same_float call (map_rounds (atoi line)) empty rest
  call left

unfoldable pub read_kind : (Bytes → Bytes → Bool) → Reader Node → Kind → Reader Node
unfolding read_line read_blob read_verbatim read_boolean read_null read_aggregate read_map
    read_attribute
read_kind same_float call type_array s = read_aggregate array call s
read_kind same_float call type_blob s = read_blob s
read_kind same_float call type_integer s = read_line (λ line. integer (atoi line)) s
read_kind same_float call type_simple s = read_line simple s
read_kind same_float call type_error s = read_line error s
read_kind same_float call type_blob_error s = read_line blob_error s
read_kind same_float call type_boolean s = read_boolean s
read_kind same_float call type_verbatim s = read_verbatim s
read_kind same_float call type_null s = read_null s
read_kind same_float call type_double s = read_line double s
read_kind same_float call type_bignum s = read_line big_num s
read_kind same_float call type_set s = read_aggregate collection call s
read_kind same_float call type_map s = read_map same_float call s
read_kind same_float call type_push s = read_aggregate push call s
read_kind same_float call type_attribute s = read_attribute same_float call s
read_kind same_float call type_unknown s = ok (nothing, s)

-- `parseRESP`, nested so many times at most.
unfoldable pub parse : (Bytes → Bytes → Bool) → ℕ → Reader Node
unfolding kind_of read_kind
parse same_float zero s = fault no_fuel
parse same_float (suc fuel) [] = fault out_of_range
parse same_float (suc fuel) (t ∷ s) =
    read_kind same_float (parse same_float fuel) (kind_of t) (t ∷ s)

-- Every value but an unknown one takes a byte at least, so the nesting is no deeper than the data.
unfoldable pub parse_resp : (Bytes → Bytes → Bool) → Reader Node
unfolding parse
parse_resp same_float s = parse same_float (suc (length s)) s

-- `$%d%s%s%s` of one argument.
unfoldable pub bulk : Bytes → Bytes
bulk arg = b'$' ∷ (format (length arg) ++ (crlf ++ (arg ++ crlf)))

unfoldable pub bulks : List Bytes → Bytes
unfolding bulk
bulks [] = []
bulks (arg ∷ args) = bulk arg ++ bulks args

-- `ConvertToRESP`
unfoldable pub convert_to_resp : Bytes → List Bytes → Bytes
unfolding bulk bulks
convert_to_resp command arguments =
    b'*' ∷ (format (length arguments + 1) ++ (crlf ++ (bulk command ++ bulks arguments)))
