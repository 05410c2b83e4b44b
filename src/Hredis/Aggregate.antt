-- ===== src/Hredis/Aggregate.antt =====
-- deps/hredis/read.go: `processAggregateItem`.
use go_mock_redis.Base.{
  ℕ, zero, suc, ◌+◌, ◌-◌, ◌*◌, ◌^◌, Bool, true, false, ◌&&◌, Option, none, some, ltb, if◌then◌else◌,
  Bytes, codes, length, Run, ok, fault, out_of_range, ◌>>=◌,
}
use go_mock_redis.Base.Signed.{ℤ, pos, negsuc}
use go_mock_redis.Base.Strconv.{Parsed, number, parse_int}
use go_mock_redis.Hredis.{
  Status, redis_err, redis_ok, protocol_err, ReplyType, dict, Task, Makers, Reader, unknown_task,
  task_at, put_task, set_err, set_err_oom, read_line, move_to_next_task,
}
use go_mock_redis.Hredis.Items.{call}

-- `r.maxElements > 0 && elements > r.maxElements`
abbrev pub is_above : ℤ → ℕ → Bool
is_above (pos m) n = ltb 0 m && ltb m n
is_above (negsuc m) n = false

-- `elements *= 2` in 64 bits, for a map.
unfoldable pub element_count : ReplyType → ℕ → ℤ
element_count dict n = if ltb n (2 ^ 62) then pos (2 * n) else negsuc (2 ^ 64 - 2 * n - 1)
element_count other n = pos n

-- `uint(elements)`
abbrev pub to_uint : ℤ → ℕ
to_uint (pos n) = n
to_uint (negsuc n) = 2 ^ 64 - (n + 1)

module _ {Obj : Type 0} where
  -- What an item of elements returns: success at the root only.
  unfoldable pub root_reply : Bool → Obj → Reader Obj → Status × Reader Obj
  root_reply root obj r = if root then (redis_ok, record r { reply = some obj }) else (redis_err, r)

  abbrev is_root : Reader Obj → Bool
  is_root r = elim r.r_idx [ pos zero ↦ true | _ ↦ false ]

  unfoldable pub push_elements : Task → Reader Obj → ℤ → Obj → Run (Status × Reader Obj)
  unfolding move_to_next_task root_reply
  push_elements t r (pos (suc n)) obj = elim r.r_idx [
    | negsuc k ↦ fault out_of_range
    | pos k ↦
        if ltb (k + 1) (length r.task)
        then ok (
            root_reply (is_root r) obj (record r {
              r_idx = pos (k + 1);
              task =
                  put_task (put_task r.task (pos k) (record t { elements = pos (suc n) }))
                    (pos (k + 1)) unknown_task;
            }))
        else fault out_of_range
  ]
  push_elements t r z obj = do r' ← move_to_next_task r; ok (root_reply (is_root r) obj r')

module _ {Obj : Type 0} (f : Makers Obj) where
  unfoldable pub aggregate_length : Task → Reader Obj → Parsed ℤ → Run (Status × Reader Obj)
  unfolding push_elements element_count move_to_next_task root_reply set_err set_err_oom
  aggregate_length t r (number (negsuc zero)) = elim (call f.create_nil λ make. make t) [
    | none ↦ ok (redis_err, set_err_oom r)
    | some obj ↦ do r' ← move_to_next_task r; ok (root_reply (is_root r) obj r')
  ]
  aggregate_length t r (number (negsuc (suc n))) =
      ok (redis_err, set_err r protocol_err (codes "Multi-bulk length out of range"))
  aggregate_length t r (number (pos n)) =
      if is_above r.max_elements n
      then ok (redis_err, set_err r protocol_err (codes "Multi-bulk length out of range"))
      else let z = element_count t.tp n in
        elim (call f.create_array λ make. make t (to_uint z)) [
          | none ↦ ok (redis_err, set_err_oom r)
          | some obj ↦ push_elements t r z obj
        ]
  aggregate_length t r _ = ok (redis_err, set_err r protocol_err (codes "Bad multi-bulk length"))

  unfoldable pub aggregate_read : Task → Option Bytes × Reader Obj → Run (Status × Reader Obj)
  unfolding aggregate_length
  aggregate_read t (none, r) = ok (redis_err, r)
  aggregate_read t (some p, r) = aggregate_length t r (parse_int p)

  unfoldable pub process_aggregate_item : Reader Obj → Run (Status × Reader Obj)
  unfolding task_at read_line aggregate_read
  process_aggregate_item r = do t ← task_at r.task r.r_idx; aggregate_read t (← read_line r)
