-- ===== src/Hredis.antt =====
-- deps/hredis/read.go: the state of the reply reader and the operations that the readers of items
-- share. The capacity of the buffer is taken to be its length.
pub mod Items
pub mod Bulk
pub mod Aggregate
pub mod Replies
pub mod Newline
pub mod Format
pub mod Context
use go_mock_redis.Base.{
  ℕ, zero, suc, ◌+◌, ◌-◌, ◌^◌, Bool, true, false, ◌&&◌, Option, none, some, List, [], ◌∷◌, ◌++◌,
  ltb, leb, ◌==◌, if◌then◌else◌, Bytes, codes, length, get_elem?, set, take, drop, Run, ok, fault,
  out_of_range, ◌>>=◌,
}
use go_mock_redis.Base.Lines.{cut}
use go_mock_redis.Base.Text.{rune_text}
use go_mock_redis.Base.Signed.{ℤ, pos, negsuc, neg}

-- `RedisStatus`
pub data Status : Type 0 where
  redis_err redis_ok : Status

-- `RedisErrFlag`
pub data ErrFlag : Type 0 where
  no_err io_err other_err eof_err protocol_err oom_err timeout_err : ErrFlag

-- `RedisReplyType`
pub data ReplyType : Type 0 where
  unknown string array integer nil status error double boolean dict collection attribute push :
      ReplyType
  bignumber verbatim : ReplyType

-- `RedisReadTask`; the parent and the object of a task are never read.
pub record Task : Type 0 where
  pub tp : ReplyType
  pub idx : ℕ
  pub elements : ℤ

-- What `ParseFloat` and the three names of numbers that are none give.
pub data Double : Type 0 where
  infinite negative_infinite not_a_number : Double
  parsed_float : Bytes → Double

-- `RedisReplyObjectFunctions`: any of the functions may be nil, and may give no object.
-- `reads_float` tells whether `strconv.ParseFloat` reads a text without an error.
pub record Makers (Obj : Type 0) : Type 0 where
  pub create_string : Option (Task → Bytes → ℕ → Option Obj)
  pub create_array : Option (Task → ℕ → Option Obj)
  pub create_integer : Option (Task → ℤ → Option Obj)
  pub create_double : Option (Task → Double → Bytes → ℕ → Option Obj)
  pub create_nil : Option (Task → Option Obj)
  pub create_bool : Option (Task → Bool → Option Obj)
  pub reads_float : Bytes → Bool

-- `RedisReader`; `len` is the field of that name, which is not always the length of the buffer.
pub record Reader (Obj : Type 0) : Type 0 where
  pub err : ErrFlag
  pub err_str : Bytes
  pub buf : Bytes
  pub pos : ℕ
  pub len : ℕ
  pub max_elements : ℤ
  pub r_idx : ℤ
  pub task : List Task
  pub reply : Option Obj

abbrev pub unknown_task : Task
unknown_task = record { tp = unknown; idx = 0; elements = pos 0 }

abbrev pub has_err : ErrFlag → Bool
has_err no_err = false
has_err _ = true

-- `r.task[i]`
unfoldable pub task_at : List Task → ℤ → Run Task
task_at tasks (negsuc n) = fault out_of_range
task_at tasks (pos n) = elim (get_elem? tasks n) [ none ↦ fault out_of_range | some t ↦ ok t ]

-- A write through the pointer `r.task[i]`, which was read before.
unfoldable pub put_task : List Task → ℤ → Task → List Task
put_task tasks (negsuc n) t = tasks
put_task tasks (pos n) t = set tasks n t

-- `cur.idx == int(prv.elements-1)`
abbrev pub is_last : ℕ → ℤ → Bool
is_last idx (pos zero) = false
is_last idx (pos (suc n)) = idx == n
is_last idx (negsuc n) = false

-- `r.buf[a:b]`
unfoldable pub slice : Bytes → ℕ → ℕ → Run Bytes
slice s a b =
    if leb a b && leb b (length s) then ok (take (b - a) (drop a s)) else fault out_of_range

module _ {Obj : Type 0} where
  unfoldable pub set_err : Reader Obj → ErrFlag → Bytes → Reader Obj
  set_err r tp text = record r {
    buf = [];
    pos = 0;
    len = 0;
    r_idx = negsuc 0;
    err = tp;
    err_str = text;
  }

  unfoldable pub set_err_oom : Reader Obj → Reader Obj
  unfolding set_err
  set_err_oom r = set_err r oom_err (codes "Out of memory")

  unfoldable pub set_err_protocol_byte : Reader Obj → ℕ → Reader Obj
  unfolding set_err
  set_err_protocol_byte r c =
      set_err r protocol_err
        (codes "Protocol error, got '" ++ (rune_text c ++ codes "' as reply type byte"))

  -- `readBytes`: the bytes are nil if there are too few.
  unfoldable pub read_bytes : ℕ → Reader Obj → Run (Option Bytes × Reader Obj)
  unfolding slice
  read_bytes n r = if ltb r.len n then ok (none, r) else do
    p ← slice r.buf r.pos (r.pos + n)
    ok (some p, record r { pos = r.pos + n; len = r.len - n })

  -- `readLine`: none where there is no CRLF; the field `len` stays.
  unfoldable pub read_line : Reader Obj → Run (Option Bytes × Reader Obj)
  unfolding cut
  read_line r =
      if ltb (length r.buf) r.pos then fault out_of_range else elim (cut (drop r.pos r.buf)) [
        | none ↦ ok (none, r)
        | some (line, rest) ↦ ok (some line, record r { pos = r.pos + (length line + 2) })
      ]

  -- One round of `moveToNextTask` at an index above zero, with the rounds that follow.
  unfoldable pub move_from : ℕ → Reader Obj → Run (Reader Obj)
  unfolding task_at put_task
  move_from zero r = ok (record r { r_idx = negsuc 0 })
  move_from (suc n) r = do
    cur ← task_at r.task (pos (suc n))
    prv ← task_at r.task (pos n)
    let rest = move_from n (record r { r_idx = pos n })
    if is_last cur.idx prv.elements
        then rest
        else ok (record r {
          task =
              put_task (put_task r.task (pos n) (record prv { tp = unknown; elements = negsuc 0 }))
                (pos (suc n)) (record cur { idx = cur.idx + 1 });
        })

  unfoldable pub move_to_next_task : Reader Obj → Run (Reader Obj)
  unfolding move_from
  move_to_next_task r = elim r.r_idx [ pos n ↦ move_from n r | negsuc n ↦ ok r ]

-- The loop of `seekNewline` from the index `i` on.
unfoldable pub seek_from : ℕ → Bytes → Option ℕ
seek_from i [] = none
seek_from i (a ∷ []) = none
seek_from i (a ∷ b ∷ s) =
    let rest = seek_from (i + 1) (b ∷ s) in if (a == b'\r') && (b == b'\n') then some i else rest

-- `seekNewline`; none stands for -1.
unfoldable pub seek_newline : Bytes → Option ℕ
unfolding seek_from
seek_newline s = if ltb (length s) 2 then none else seek_from 0 s
