-- ===== src/Node/Client/Replies.antt =====
-- node/client.go: what the replies put on the connection.
use go_mock_redis.Base.{
  ℕ, ◌^◌, ◌<◌, ◌≡◌, refl, true, false, [], ◌∷◌, ◌++◌, arith, Bytes, codes, crlf, ltb, if◌then◌else◌,
  ok, ◌>>=◌, length, Bool-cases, inl, inr, append_assoc, ap,
}
use go_mock_redis.Base.Text.{IsAscii, rune_count, rune_count-ascii}
use go_mock_redis.Base.Decimal.{format}
use go_mock_redis.Db.Object.{RedisObj, encoding_object, str}
use go_mock_redis.Node.Client.{
  Client, prepare_client_to_write, write, add_reply_proto, add_reply, add_reply_bulk,
  add_reply_bulk_len, ll_2_string, format_int64, as_string, add_reply_error, add_reply_error_length,
  starts_with_dash,
}

-- The client may be written to.
pub record IsWritable (c : Client) : Type 0 where
  pub live : c.connected ≡ true
  pub prepared : prepare_client_to_write c ≡ true

-- The client after some bytes have been sent.
abbrev pub sent : Client → Bytes → Client
sent c s = record c { written = c.written ++ s }

-- An object with a text.
pub record IsText (o : RedisObj) (s : Bytes) : Type 0 where
  pub encoded : encoding_object o ≡ true
  pub text : o.value ≡ str s

-- A bulk string of the protocol.
abbrev pub bulk : Bytes → Bytes
bulk s = b'$' ∷ format (length s) ++ crlf ++ s ++ crlf

pub sent_twice : (c : Client) (s t : Bytes) → sent (sent c s) t ≡ sent c (s ++ t)
sent_twice c s t = ap (λ w. record c { written = w }) (append_assoc c.written s t)

module _ (c : Client) (w : IsWritable c) where
  pub sent-IsWritable : (s : Bytes) → IsWritable (sent c s)
  unfolding prepare_client_to_write
  sent-IsWritable s = record { live = w.live; prepared = w.prepared }

  add_reply_proto-sent : (s : Bytes) → add_reply_proto c s ≡ ok (sent c s)
  unfolding add_reply_proto write
  add_reply_proto-sent s = rw (w.prepared, add_reply_proto, w.live)

  pub add_reply-sent : (o : RedisObj) (s : Bytes) → IsText o s → add_reply c o ≡ ok (sent c s)
  unfolding add_reply write as_string
  add_reply-sent o s t = rw (w.prepared, add_reply, t.encoded, t.text, as_string, ◌>>=◌, w.live)

-- The reply to a client that may not be written to is dropped.
add_reply-dropped :
    (c : Client) (o : RedisObj) → prepare_client_to_write c ≡ false → add_reply c o ≡ ok c
unfolding add_reply
add_reply-dropped c o closed = rw (closed, add_reply)

ll_2_string-short : (prefix n : ℕ) → n < 2 ^ 63 → ll_2_string prefix n ≡ prefix ∷ format n ++ crlf
unfolding ll_2_string format_int64
ll_2_string-short prefix n short =
    let small : ltb n (2 ^ 63) ≡ true = ground arith in rw (small, ll_2_string)

-- The head of a bulk reply counts runes.
add_reply_bulk_len-sent :
    (c : Client) (o : RedisObj) (s : Bytes)
    → IsWritable c
    → IsText o s
    → rune_count s < 2 ^ 63
    → add_reply_bulk_len c o ≡ ok (sent c (b'$' ∷ format (rune_count s) ++ crlf))
unfolding add_reply_bulk_len
add_reply_bulk_len-sent c o s w t short =
    rw (t.text, ◌>>=◌, ll_2_string-short b'$' (rune_count s) short, add_reply_proto-sent c w) refl

add_reply_bulk_run :
    (c : Client) (o : RedisObj) (s h : Bytes)
    → IsWritable c
    → IsText o s
    → add_reply_bulk_len c o ≡ ok (sent c h)
    → add_reply_bulk c o ≡ ok (sent c (h ++ s ++ crlf))
unfolding add_reply_bulk
add_reply_bulk_run c o s h w t run =
    let w' = sent-IsWritable c w h in
    let w'' = sent-IsWritable (sent c h) w' s in
    let replied = add_reply-sent (sent c h) w' o s t in
    let ended = add_reply_proto-sent (sent (sent c h) s) w'' crlf in
    rw
      (
        run,
        ◌>>=◌,
        replied,
        ended,
        append_assoc c.written h s,
        append_assoc c.written (h ++ s) crlf,
        append_assoc h s crlf,
      )
      refl

-- The bulk reply with a text, to a client that may be written to, sends the dollar, the number of
-- runes of the text in decimal, which is below 2^63, the text, and a line end after each.
add_reply_bulk-sent :
    (c : Client) (o : RedisObj) (s : Bytes)
    → IsWritable c
    → IsText o s
    → rune_count s < 2 ^ 63
    → add_reply_bulk c o ≡ ok (sent c ((b'$' ∷ format (rune_count s) ++ crlf) ++ s ++ crlf))
add_reply_bulk-sent c o s w t short =
    add_reply_bulk_run c o s _ w t (add_reply_bulk_len-sent c o s w t short)

-- The bulk reply with an ASCII text of less than 2^63 bytes, to a client that may be written to,
-- sends the dollar, the length in decimal, the text, and a line end after each.
pub add_reply_bulk-ascii :
    (c : Client) (o : RedisObj) (s : Bytes)
    → IsWritable c
    → IsText o s
    → IsAscii s
    → length s < 2 ^ 63
    → add_reply_bulk c o ≡ ok (sent c (bulk s))
add_reply_bulk-ascii c o s w t ascii short =
    let count = rune_count-ascii s ascii in
    rw (add_reply_bulk-sent c o s w t (rw count short), count) refl

-- An error reply to a client that may be written to sends the message and the line end, with the
-- prefix `-ERR` only before a message that begins with a dash.
pub add_reply_error-sent :
    (c : Client) (s : Bytes)
    → IsWritable c
    → add_reply_error c s
      ≡ ok (sent c ((if starts_with_dash s then codes "-ERR" else []) ++ s ++ crlf))
unfolding add_reply_error add_reply_error_length
add_reply_error-sent c s w = elim (Bool-cases (starts_with_dash s)) [
  | inl dash ↦
      let w' = sent-IsWritable c w (codes "-ERR") in
      let w'' = sent-IsWritable (sent c (codes "-ERR")) w' s in
      rw
        (
          dash,
          add_reply_proto-sent c w,
          ◌>>=◌,
          add_reply_proto-sent (sent c (codes "-ERR")) w' s,
          add_reply_proto-sent (sent (sent c (codes "-ERR")) s) w'' crlf,
          append_assoc c.written (codes "-ERR") s,
          append_assoc c.written (codes "-ERR" ++ s) crlf,
        )
        refl
  | inr plain ↦
      let w' = sent-IsWritable c w s in
      rw
        (
          plain,
          ◌>>=◌,
          add_reply_proto-sent c w,
          add_reply_proto-sent (sent c s) w' crlf,
          append_assoc c.written s crlf,
        )
        refl
]
