-- ===== src/Resp/Leftovers.antt =====
-- Where `parseRESP` departs from the protocol of resp/resp3.go's first comment: values behind which
-- it leaves bytes of their own writing, and sizes below zero.
use go_mock_redis.Base.{
  ℕ, suc, ◌+◌, ◌-◌, ◌^◌, ◌<◌, ◌≡◌, refl, Bool, true, false, ◌&&◌, none, [], ◌∷◌, ◌++◌, arith,
  append_assoc, leb, Bytes, crlf, length, length-append, take-append_length, drop-append_length, ok,
  fault, out_of_range, ◌>>=◌,
}
use go_mock_redis.Base.Lines.{cut, cut-format}
use go_mock_redis.Base.Decimal.{format}
use go_mock_redis.Base.Signed.{pos, negsuc}
use go_mock_redis.Base.Strconv.{atoi, atoi-format}
use go_mock_redis.Resp.{
  null, boolean, blob_error, verbatim, read_line, read_blob, take_blob, read_aggregate, counted,
  read_verbatim, take_verbatim, read_boolean, read_null, skip, kind_of, read_kind, parse,
  parse_resp,
}
use go_mock_redis.Resp.Encode.{encode}
use go_mock_redis.Resp.RoundTrip.{header_line}

take_verbatim-append :
    (a b c : ℕ) (text rest : Bytes)
    → take_verbatim (pos (3 + 1 + length text)) (a ∷ b ∷ c ∷ b':' ∷ (text ++ rest))
      ≡ ok (verbatim (a ∷ b ∷ c ∷ []) text, rest)
unfolding take_verbatim
take_verbatim-append a b c text rest =
    let n : 3 + 1 + length text ≡ suc (suc (suc (suc (length text)))) = omega arith in
    let m : suc (suc (suc (suc (length text)))) - 4 ≡ length text = omega arith in
    let k = suc (suc (suc (suc (length text)))) in
    let fits : (leb 4 k && leb k (suc (suc (suc (suc (length (text ++ rest))))))) ≡ true =
      ground (arith, length-append text rest) in
    rw (n, fits, m, take-append_length, drop-append_length) refl

module _ (same_float : Bytes → Bytes → Bool) where
  null-leaves : (rest : Bytes) → parse_resp same_float (encode null ++ rest) ≡ ok (null, 10 ∷ rest)
  unfolding parse_resp parse read_kind kind_of read_null skip encode
  null-leaves rest = ground arith

  boolean-leaves :
      (b : Bool) (rest : Bytes)
      → parse_resp same_float (encode (boolean b) ++ rest) ≡ ok (boolean b, 10 ∷ rest)
  unfolding parse_resp parse read_kind kind_of read_boolean skip encode
  boolean-leaves true rest = ground arith
  boolean-leaves false rest = ground arith

  verbatim-leaves :
      (a b c : ℕ) (text rest : Bytes)
      → 4 + length text < 2 ^ 63
      → parse_resp same_float (encode (verbatim (a ∷ b ∷ c ∷ []) text) ++ rest)
        ≡ ok (verbatim (a ∷ b ∷ c ∷ []) text, crlf ++ rest)
  unfolding parse_resp parse read_kind kind_of read_verbatim encode
  verbatim-leaves a b c text rest h =
      let n = 3 + 1 + length text in
      rw
        (
          append_assoc,
          header_line b'=' refl (format n) (a ∷ b ∷ c ∷ b':' ∷ ((text ++ crlf) ++ rest))
              (cut-format n),
          ◌>>=◌,
          atoi-format n (omega arith),
          append_assoc text crlf rest,
        )
        (take_verbatim-append a b c text (crlf ++ rest))

  blob_error-leaves :
      (text rest : Bytes)
      → parse_resp same_float (encode (blob_error text) ++ rest)
        ≡ ok (blob_error (format (length text)), text ++ (crlf ++ rest))
  unfolding parse_resp parse read_kind kind_of read_line encode
  blob_error-leaves text rest =
      rw
        (
          append_assoc,
          header_line b'!' refl (format (length text)) ((text ++ crlf) ++ rest)
              (cut-format (length text)),
          ◌>>=◌,
          append_assoc text crlf rest,
        )
        refl

  -- What the protocol writes for a null, a boolean, a verbatim string with a format of three bytes
  -- and a text shorter than 2^63 - 4, or a blob error is not read to its end: `parseRESP` leaves
  -- the last byte of the null and of the boolean, the line end behind the verbatim string, and of
  -- the blob error it gives the length for the message and leaves the message.
  pub parse_resp-leftovers :
      (b : Bool) (x y z : ℕ) (text rest : Bytes)
      → 4 + length text < 2 ^ 63
      → (parse_resp same_float (encode null ++ rest) ≡ ok (null, 10 ∷ rest))
        × (parse_resp same_float (encode (boolean b) ++ rest) ≡ ok (boolean b, 10 ∷ rest))
        × (parse_resp same_float (encode (verbatim (x ∷ y ∷ z ∷ []) text) ++ rest)
            ≡ ok (verbatim (x ∷ y ∷ z ∷ []) text, crlf ++ rest))
        × (parse_resp same_float (encode (blob_error text) ++ rest)
            ≡ ok (blob_error (format (length text)), text ++ (crlf ++ rest)))
  parse_resp-leftovers b x y z text rest h = (
    null-leaves rest,
    boolean-leaves b rest,
    verbatim-leaves x y z text rest h,
    blob_error-leaves text rest,
  )

  -- A blob or an array whose size is a number below zero, as the null blob `$-1` of the protocol,
  -- makes `parseRESP` panic.
  parse_resp-negative :
      (size rest : Bytes) (n : ℕ)
      → cut size ≡ none
      → atoi size ≡ negsuc n
      → (parse_resp same_float (b'$' ∷ (size ++ (crlf ++ rest))) ≡ fault out_of_range)
        × (parse_resp same_float (b'*' ∷ (size ++ (crlf ++ rest))) ≡ fault out_of_range)
  unfolding parse_resp parse read_kind kind_of read_blob take_blob read_aggregate counted
  parse_resp-negative size rest n line below = (
    rw (header_line b'$' refl size rest line, ◌>>=◌, below, take_blob) refl,
    rw (header_line b'*' refl size rest line, ◌>>=◌, below, counted) refl,
  )
