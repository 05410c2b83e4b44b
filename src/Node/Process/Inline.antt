-- ===== src/Node/Process/Inline.antt =====
-- node/client.go, `processInlineBuffer`, and `strings.Fields`, which it splits a line with.
pub mod Fields
pub mod Line
use mathlib.Core.Option
use go_mock_redis.Base.{
  ℕ, zero, suc, ◌+◌, ◌-◌, ◌^◌, Bool, true, false, ◌&&◌, ◌||◌, ◌==◌, leb, if◌then◌else◌, Option,
  none, some, List, [], ◌∷◌, ◌++◌, Bytes, codes, length, take, drop, replicate, Run, ok, fault,
  Fault, ◌>>=◌,
}
use go_mock_redis.Db.Dict.{at}
use go_mock_redis.Db.Object.{RedisObj, string_type, str}
use go_mock_redis.Node.Flags.{slave, bit}
use go_mock_redis.Node.Client.{add_reply_error, create_object}
use go_mock_redis.Node.Process.{Session}
use go_mock_redis.Node.Process.Input.{slice_from}

-- White space of Unicode in UTF-8, of one, two and three bytes.
unfoldable pub is_space : ℕ → Bool
is_space c = (leb 9 c && leb c 13) || c == 32

unfoldable pub is_space_2 : ℕ → ℕ → Bool
is_space_2 c b = c == 194 && (b == 133 || b == 160)

unfoldable pub is_space_3 : ℕ → ℕ → ℕ → Bool
is_space_3 c b a =
    (c == 225 && b == 154 && a == 128)
    || (c == 226 && b == 128 && ((leb 128 a && leb a 138) || a == 168 || a == 169 || a == 175))
    || (c == 226 && b == 129 && a == 159)
    || (c == 227 && b == 128 && a == 128)

-- How many bytes the space takes that a text begins with. No byte inside a character begins one.
unfoldable pub space_length : Bytes → ℕ
unfolding is_space is_space_2 is_space_3
space_length [] = 0
space_length (c ∷ []) = if is_space c then 1 else 0
space_length (c ∷ b ∷ []) = if is_space c then 1 else if is_space_2 c b then 2 else 0
space_length (c ∷ b ∷ a ∷ s) =
    if is_space c then 1 else if is_space_2 c b then 2 else if is_space_3 c b a then 3 else 0

unfoldable pub put_word : Bytes → List Bytes → List Bytes
put_word [] words = words
put_word (c ∷ w) words = (c ∷ w) ∷ words

-- `strings.Fields`, in a space of which `skip` bytes are left, or behind the beginning of a word.
unfoldable pub fields_from : (skip : ℕ) → (word : Bytes) → Bytes → List Bytes
unfolding space_length put_word
fields_from skip word [] = put_word word []
fields_from (suc skip) word (c ∷ s) = fields_from skip word s
fields_from zero word (c ∷ s) = elim (space_length (c ∷ s)) [
  | zero ↦ fields_from zero (word ++ (c ∷ [])) s
  | suc skip ↦ put_word word (fields_from skip [] s)
]

unfoldable pub fields : Bytes → List Bytes
unfolding fields_from
fields s = fields_from zero [] s

-- `bytes.IndexByte`
unfoldable pub index_byte : Bytes → ℕ → Option ℕ
index_byte [] b = none
index_byte (c ∷ s) b =
    let later = Option.map (λ i. suc i) (index_byte s b) in if c == b then some 0 else later

-- The fields of the client that only this function uses, and its arguments, which can be nil here and
-- stand in for `session.client.argv`.
pub record Inline : Type 0 where
  pub session : Session
  pub argv : List (Option RedisObj)
  pub argv_len : ℕ
  pub argv_len_sum : ℕ
  pub repl_ack_time : ℕ

abbrev pub proto_inline_max_size : ℕ
proto_inline_max_size = 65536

-- Without a line end.
unfoldable pub refuse_big : Inline → Run Inline
unfolding add_reply_error
refuse_big c =
    if leb proto_inline_max_size (length c.session.query_buf - c.session.query_pos)
    then (do
      client ← add_reply_error c.session.client (codes "Protocol error: too big inline request")
      ok (record c {
        session = record c.session { client = client; query_buf = []; query_pos = 0 };
      }))
    else ok c

-- The end of the line and the number of its line feed characters.
unfoldable pub line_end : Bytes → ℕ → Run (ℕ × ℕ)
unfolding at
line_end buf p =
    if p == 0 then ok (0, 1) else do b ← at buf (p - 1); ok (if b == 13 then (p - 1, 2) else (p, 1))

-- `buf[pos:p]`
unfoldable pub slice_line : Bytes → (pos p : ℕ) → Run Bytes
slice_line buf pos p =
    if leb pos p && leb p (length buf)
    then ok (take (p - pos) (drop pos buf))
    else fault Fault.out_of_range

unfoldable pub new_arguments : Inline → List Bytes → Inline
new_arguments c [] = c
new_arguments c (w ∷ ws) = record c {
  argv = replicate (suc (length ws)) none;
  argv_len = suc (length ws);
  argv_len_sum = 0;
}

abbrev pub append_argument : Inline → Bytes → Inline
append_argument c w = record c {
  session = record c.session {
    client = record c.session.client { argc = c.session.client.argc + 1 };
  };
  argv = c.argv ++ (some (create_object string_type (str w)) ∷ []);
  argv_len_sum = c.argv_len_sum + length w;
}

unfoldable pub append_arguments : Inline → List Bytes → Inline
append_arguments c [] = c
append_arguments c (w ∷ ws) = append_arguments (append_argument c w) ws

unfoldable pub acknowledge : (now query_len : ℕ) → Inline → Inline
unfolding bit
acknowledge now query_len c =
    if query_len == 0 && c.session.client.flags == 2 ^ bit slave
    then record c { repl_ack_time = now }
    else c

-- Behind the line, with its line feed characters.
unfoldable pub pass_line : (now query_len chars : ℕ) → Inline → Inline
unfolding acknowledge
pass_line now query_len chars c =
    let c₁ = acknowledge now query_len c in
    record c₁ {
      session = record c₁.session { query_pos = c₁.session.query_pos + (query_len + chars) };
    }

unfoldable pub take_arguments : Inline → List Bytes → Inline
unfolding new_arguments append_arguments
take_arguments c argv = append_arguments (new_arguments c argv) argv

-- The line up to `p`. What `strings.Fields` returns is never nil.
unfoldable pub read_arguments : (now : ℕ) → Inline → (p chars : ℕ) → Run (Inline × Bool)
unfolding slice_line fields pass_line take_arguments
read_arguments now c p chars = do
  aux ← slice_line c.session.query_buf c.session.query_pos p
  ok (take_arguments (pass_line now (p - c.session.query_pos) chars c) (fields aux), true)

-- Without a line end the index is -1, and the byte in front of it is at -2.
unfoldable pub process_inline_buffer : (now : ℕ) → Inline → Run (Inline × Bool)
unfolding slice_from index_byte refuse_big line_end read_arguments
process_inline_buffer now c = do
  waiting ← slice_from c.session.query_buf c.session.query_pos
  elim (index_byte waiting 10) [
    | none ↦ do _ ← refuse_big c; fault Fault.out_of_range
    | some p ↦ do (q, chars) ← line_end c.session.query_buf p; read_arguments now c q chars
  ]
