-- ===== src/Hredis/Bulk.antt =====
-- deps/hredis/read.go: `processBulkItem`.
use go_mock_redis.Base.{
  ℕ, zero, suc, ◌+◌, Bool, true, false, not, Option, none, some, ltb, ◌==◌, if◌then◌else◌, Bytes,
  codes, length, get_elem?, Run, ok, fault, out_of_range, ◌>>=◌,
}
use go_mock_redis.Base.Signed.{ℤ, pos, negsuc}
use go_mock_redis.Base.Strconv.{Parsed, number, bad_syntax, bad_range, parse_int}
use go_mock_redis.Hredis.{
  Status, redis_err, protocol_err, ReplyType, verbatim, Task, Makers, Reader, task_at, set_err,
  slice, seek_newline,
}
use go_mock_redis.Hredis.Items.{call, deliver}

module _ {Obj : Type 0} where
  -- The test of the content type: the colon is asked for where the task is no verbatim string.
  unfoldable pub bad_content : ReplyType → Reader Obj → (idx n : ℕ) → Run Bool
  bad_content verbatim r idx n = ok (ltb n 4)
  bad_content other r idx n = elim (get_elem? r.buf (idx + 5)) [
    | none ↦ fault out_of_range
    | some c ↦ ok (not (c == b':'))
  ]

  -- The text, which may reach past the buffer, and the position behind the line of the length.
  unfoldable pub make_bulk :
      Option (Task → Bytes → ℕ → Option Obj)
      → Task
      → Reader Obj
      → (idx n : ℕ) → Run (Status × Reader Obj)
  unfolding deliver slice
  make_bulk none t r idx n = deliver r none
  make_bulk (some make) t r idx n = do
    p ← slice r.buf (r.pos + idx + 2) (r.pos + idx + 2 + n)
    deliver (record r { pos = r.pos + (idx + 2) }) (make t p n)

module _ {Obj : Type 0} (f : Makers Obj) where
  unfoldable pub check_bulk : Bool → Task → Reader Obj → (idx n : ℕ) → Run (Status × Reader Obj)
  unfolding make_bulk set_err
  check_bulk true t r idx n = ok (
    redis_err,
    set_err r protocol_err
        (codes "Verbatim string 4 bytes of content type are missing or incorrectly encoded."),
  )
  check_bulk false t r idx n = make_bulk f.create_string t r idx n

  -- The item is taken if the line of its length is inside the data.
  unfoldable pub take_bulk : Task → Reader Obj → (idx n : ℕ) → Run (Status × Reader Obj)
  unfolding bad_content check_bulk
  take_bulk t r idx n =
      if ltb r.len (r.pos + (idx + 2))
      then ok (redis_err, r)
      else bad_content t.tp r idx n >>= λ bad. check_bulk bad t r idx n

  -- A length of -1 stands for nil, and then the position is set from the start of the buffer.
  unfoldable pub bulk_length : Task → Reader Obj → ℕ → Parsed ℤ → Run (Status × Reader Obj)
  unfolding take_bulk
  bulk_length t r idx bad_syntax =
      ok (redis_err, set_err r protocol_err (codes "Bad bulk string length"))
  bulk_length t r idx (bad_range z) =
      ok (redis_err, set_err r protocol_err (codes "Bad bulk string length"))
  bulk_length t r idx (number (pos n)) = take_bulk t r idx n
  bulk_length t r idx (number (negsuc zero)) =
      deliver (record r { pos = idx + 2 }) (call f.create_nil λ make. make t)
  bulk_length t r idx (number (negsuc (suc n))) =
      ok (redis_err, set_err r protocol_err (codes "Bulk string length out of range"))

  -- The line up to the CRLF at `idx`; at 0 there is nothing to read.
  unfoldable pub bulk_at : Task → Reader Obj → Option ℕ → Run (Status × Reader Obj)
  unfolding slice bulk_length
  bulk_at t r none = ok (redis_err, r)
  bulk_at t r (some zero) = ok (redis_err, r)
  bulk_at t r (some (suc i)) = do
    line ← slice r.buf r.pos (r.pos + suc i)
    bulk_length t r (suc i) (parse_int line)

  unfoldable pub process_bulk_item : Reader Obj → Run (Status × Reader Obj)
  unfolding task_at seek_newline slice bulk_at
  process_bulk_item r = do
    t ← task_at r.task r.r_idx
    rest ← slice r.buf r.pos (length r.buf)
    bulk_at t r (seek_newline rest)
