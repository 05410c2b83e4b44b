-- ===== src/Hredis/Replies.antt =====
-- deps/hredis/read.go: `processItem` and `GetReply`. The parameter of `GetReply` is a pointer by
-- value that is set to nil first, so the caller sees the status only.
pub mod Idle
pub mod Silent
pub mod Stuck
use go_mock_redis.Base.{
  ℕ, zero, suc, Bool, true, false, ◌&&◌, Option, none, some, List, [], ◌∷◌, ltb, leb, ◌==◌,
  if◌then◌else◌, Bytes, length, Run, ok, fault, out_of_range, explicit_panic, no_fuel, ◌>>=◌,
}
use go_mock_redis.Base.Signed.{ℤ, pos, negsuc}
use go_mock_redis.Hredis.{
  Status, redis_err, redis_ok, no_err, ReplyType, unknown, string, array, integer, nil, status,
  error, double, boolean, dict, collection, attribute, push, bignumber, verbatim, Task, Makers,
  Reader, unknown_task, has_err, task_at, put_task, set_err_protocol_byte, read_bytes,
}
use go_mock_redis.Hredis.Items.{process_line_item}
use go_mock_redis.Hredis.Bulk.{process_bulk_item}
use go_mock_redis.Hredis.Aggregate.{process_aggregate_item}

-- The switch on the first byte of an item.
unfoldable pub type_of : ℕ → Option ReplyType
type_of c =
    if c == b'-'
    then some error
    else if c == b'+'
    then some status
    else if c == b':'
    then some integer
    else if c == b','
    then some double
    else if c == b'_'
    then some nil
    else if c == b'$'
    then some string
    else if c == b'*'
    then some array
    else if c == b'%'
    then some dict
    else if c == b'~'
    then some collection
    else if c == b'#'
    then some boolean
    else if c == b'='
    then some verbatim
    else if c == b'('
    then some bignumber
    else none

-- A round of the loop, with the rounds that follow.
unfoldable pub after_item :
    {Obj : Type 0} → (Reader Obj → Run (Reader Obj)) → Status × Reader Obj → Run (Reader Obj)
after_item rest (redis_ok, r) = rest r
after_item rest (redis_err, r) = ok r

module _ {Obj : Type 0} (f : Makers Obj) where
  -- The switch on the type: a case of Go with no statements does nothing and falls through to none.
  unfoldable pub process_typed : ReplyType → Reader Obj → Run (Status × Reader Obj)
  unfolding process_line_item process_bulk_item process_aggregate_item
  process_typed error r = ok (redis_err, r)
  process_typed status r = ok (redis_err, r)
  process_typed integer r = ok (redis_err, r)
  process_typed double r = ok (redis_err, r)
  process_typed nil r = ok (redis_err, r)
  process_typed boolean r = ok (redis_err, r)
  process_typed bignumber r = process_line_item f r
  process_typed string r = ok (redis_err, r)
  process_typed verbatim r = process_bulk_item f r
  process_typed array r = ok (redis_err, r)
  process_typed dict r = ok (redis_err, r)
  process_typed collection r = ok (redis_err, r)
  process_typed push r = process_aggregate_item f r
  process_typed attribute r = fault explicit_panic
  process_typed unknown r = fault explicit_panic

  -- The type byte was read, or there was none.
  unfoldable pub set_type : Task → Option Bytes × Reader Obj → Run (Status × Reader Obj)
  unfolding type_of process_typed set_err_protocol_byte put_task
  set_type t (none, r) = ok (redis_err, r)
  set_type t (some [], r) = fault out_of_range
  set_type t (some (c ∷ p), r) = elim (type_of c) [
    | none ↦ ok (redis_err, set_err_protocol_byte r c)
    | some tp ↦
        process_typed tp (record r { task = put_task r.task r.r_idx (record t { tp = tp }) })
  ]

  unfoldable pub process_task : ReplyType → Task → Reader Obj → Run (Status × Reader Obj)
  unfolding read_bytes set_type
  process_task unknown t r = do set_type t (← read_bytes 1 r)
  process_task tp t r = process_typed tp r

  unfoldable pub process_item : Reader Obj → Run (Status × Reader Obj)
  unfolding task_at process_task
  process_item r = do t ← task_at r.task r.r_idx; process_task t.tp t r

  unfoldable pub loop_round :
      (Reader Obj → Run (Reader Obj)) → List Task → Reader Obj → Run (Reader Obj)
  unfolding process_item after_item
  loop_round rest [] r = ok r
  loop_round rest (t ∷ more) r = process_item r >>= after_item rest

  -- `for len(r.task) > 0`, so many rounds at most.
  unfoldable pub process_items : ℕ → Reader Obj → Run (Reader Obj)
  unfolding loop_round
  process_items zero r = fault no_fuel
  process_items (suc fuel) r = loop_round (process_items fuel) r.task r

-- The reply goes when the stack of tasks is done, also where nobody was given it.
unfoldable pub clear_reply : {Obj : Type 0} → ℤ → Reader Obj → Reader Obj
clear_reply (negsuc zero) r = record r { reply = none }
clear_reply i r = r

-- Behind the loop: the error, the part of the buffer that was consumed, and the reply.
unfoldable pub emit : {Obj : Type 0} → Reader Obj → Status × Reader Obj
unfolding clear_reply
emit r =
    if has_err r.err
    then (redis_err, r)
    else if ltb 1024 r.pos && leb r.len r.pos
    then (redis_err, r)
    else if ltb 1024 r.pos
    then (redis_ok, clear_reply r.r_idx (record r { pos = 0; len = length r.buf }))
    else (redis_ok, clear_reply r.r_idx r)

-- The first task, when the stack is empty.
unfoldable pub with_task : {Obj : Type 0} → Reader Obj → Reader Obj
with_task r = elim r.task [ [] ↦ record r { task = unknown_task ∷ [] } | _ ↦ r ]

-- `GetReply`; a successful item is the root's, so the loop makes two rounds at most.
unfoldable pub get_reply : {Obj : Type 0} → Makers Obj → Reader Obj → Run (Status × Reader Obj)
unfolding process_items emit with_task
get_reply f r =
    let rest = process_items f 2 (with_task r) >>= λ r'. ok (emit r') in
    if has_err r.err then ok (redis_err, r) else if r.len == 0 then ok (redis_ok, r) else rest
