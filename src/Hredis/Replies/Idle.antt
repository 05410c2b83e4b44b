-- ===== src/Hredis/Replies/Idle.antt =====
-- What a reader comes to, whatever is in its buffer: it waits at the first task for ever, it is in
-- an error, or it panics. No reply gets out.
use go_mock_redis.Base.{
  ℕ, zero, suc, ◌≡◌, ◌≢◌, ◌⊎◌, refl, Bool, true, false, Option, none, some, List, inl, inr, [], ◌∷◌,
  arith, Bytes, Bool-cases, Option-cases, Run, ok, fault, no_fuel, ◌>>=◌, ltb, length, ◌+◌,
  get_elem?, drop,
}
use go_mock_redis.Base.Signed.{ℤ, pos, negsuc}
use go_mock_redis.Base.Lines.{cut}
use go_mock_redis.Base.Strconv.{Parsed, number, bad_syntax, bad_range, parse_int}
use go_mock_redis.Hredis.{
  Status, redis_err, redis_ok, ErrFlag, ReplyType, unknown, attribute, push, bignumber, verbatim,
  Task, Makers, Reader, has_err, task_at, set_err, set_err_oom, read_line, slice, move_from,
  move_to_next_task, seek_newline,
}
use go_mock_redis.Hredis.Items.{
  Made, made, refused, call, deliver, finish_line, make_line, line_read, process_line_item,
}
use go_mock_redis.Hredis.Bulk.{
  bad_content, make_bulk, check_bulk, take_bulk, bulk_at, bulk_length, process_bulk_item,
}
use go_mock_redis.Hredis.Replies.{type_of, process_typed}

-- The types that `processItem` gives to a task, and that of a new one.
abbrev pub IsKnown : ReplyType → Type 0
IsKnown push = ⊥
IsKnown attribute = ⊥
IsKnown _ = Unit {0}

abbrev pub IsRoot : List Task → Type 0
IsRoot [] = ⊥
IsRoot (t ∷ []) = IsKnown t.tp
IsRoot _ = ⊥

task_at-runs : (tasks : List Task) (i : ℤ) → task_at tasks i ≢ fault no_fuel
unfolding task_at
task_at-runs tasks (pos n) = elim (Option-cases (get_elem? tasks n)) [
  | inl e ↦ rw (e, task_at) λ h. cc
  | inr (t, e) ↦ rw (e, task_at) λ h. cc
]
task_at-runs tasks (negsuc n) = λ h. cc

pub slice-runs : (s : Bytes) (a b : ℕ) → slice s a b ≢ fault no_fuel
unfolding slice
slice-runs s a b = ground arith

pub type_of-IsKnown : (c : ℕ) (tp : ReplyType) → type_of c ≡ some tp → IsKnown tp
unfolding type_of
type_of-IsKnown c push e = absurd (ground arith)
type_of-IsKnown c attribute e = absurd (ground arith)
type_of-IsKnown c _ e = tt

IsRoot-ne_nil : (tasks : List Task) → IsRoot tasks → tasks ≢ []
IsRoot-ne_nil [] h = absurd h
IsRoot-ne_nil (t ∷ more) h = λ e. cc

module _ {Obj : Type 0} where
  -- At the first task, and no reply at hand.
  pub record Waits (r : Reader Obj) : Type 0 where
    pub at_root : r.r_idx ≡ pos 0
    pub one_task : IsRoot r.task
    pub no_reply : r.reply ≡ none

  pub record Fails (r : Reader Obj) : Type 0 where
    pub has_error : has_err r.err ≡ true
    pub nothing : r.reply ≡ none

  abbrev pub IsIdle : Reader Obj → Type 0
  IsIdle r = Waits r ⊎ Fails r

  -- An item that succeeds takes the index below the stack; one that does not leaves the reader idle.
  abbrev pub IsItem : Run (Status × Reader Obj) → Type 0
  IsItem (fault panic) = panic ≢ no_fuel
  IsItem (ok (redis_ok, r)) = (r.r_idx ≡ negsuc 0) × (r.task ≢ [])
  IsItem (ok (redis_err, r)) = IsIdle r

  IsItem-bind :
      {A : Type 0} (call : Run A) (k : A → Run (Status × Reader Obj))
      → call ≢ fault no_fuel
      → ((a : A) → IsItem (k a))
      → IsItem (call >>= k)
  IsItem-bind (fault panic) k h step = λ e. h (rw e)
  IsItem-bind (ok a) k h step = step a

  set_err-Fails :
      (r : Reader Obj) (flag : ErrFlag) (text : Bytes)
      → has_err flag ≡ true
      → r.reply ≡ none
      → Fails (set_err r flag text)
  unfolding set_err
  set_err-Fails r flag text h e = record { has_error = h; nothing = e }

  module _ (r : Reader Obj) (w : Waits r) where
    pub moved : (p : ℕ) → Waits (record r { pos = p })
    moved p = record { at_root = w.at_root; one_task = w.one_task; no_reply = w.no_reply }

    pub refused-IsItem :
        (flag : ErrFlag) (text : Bytes)
        → has_err flag ≡ true
        → IsItem (ok (redis_err, set_err r flag text))
    refused-IsItem flag text h = inr (set_err-Fails r flag text h w.no_reply)

    deliver-IsItem : (o : Option Obj) → IsItem (deliver r o)
    unfolding deliver set_err_oom move_to_next_task move_from
    deliver-IsItem none = inr (set_err-Fails r _ _ refl w.no_reply)
    deliver-IsItem (some obj) = rw w.at_root (refl, IsRoot-ne_nil r.task w.one_task)

    finish_line-IsItem : (m : Made Obj) → IsItem (finish_line r m)
    unfolding finish_line
    finish_line-IsItem (refused text) = refused-IsItem _ text refl
    finish_line-IsItem (made o) = deliver-IsItem o

  bad_content-runs :
      (tp : ReplyType) (r : Reader Obj) (idx n : ℕ) → bad_content tp r idx n ≢ fault no_fuel
  unfolding bad_content
  bad_content-runs verbatim r idx n = λ h. cc
  bad_content-runs _ r idx n = elim (Option-cases (get_elem? r.buf (idx + 5))) [
    | inl e ↦ rw (e, bad_content) λ h. cc
    | inr (c, e) ↦ rw (e, bad_content) λ h. cc
  ]

  module _ (f : Makers Obj) where
    module _ (r : Reader Obj) (w : Waits r) where
      read_line-IsItem : (t : Task) → IsItem (read_line r >>= line_read f t)
      unfolding read_line line_read
      read_line-IsItem t = elim (Bool-cases (ltb (length r.buf) r.pos)) [
        | inl e ↦ rw (e, read_line) λ h. cc
        | inr e ↦ elim (Option-cases (cut (drop r.pos r.buf))) [
          | inl n ↦ rw (e, read_line, n) (inl w)
          | inr ((line, rest), s) ↦
              rw (e, read_line, s)
                (finish_line-IsItem _ (moved r w (r.pos + (length line + 2)))
                  (make_line f t.tp t line))
        ]
      ]

      process_read_line-IsItem : IsItem (process_line_item f r)
      unfolding process_line_item
      process_read_line-IsItem =
          IsItem-bind (task_at r.task r.r_idx) _ (task_at-runs r.task r.r_idx) read_line-IsItem

      make_bulk-IsItem :
          (o : Option (Task → Bytes → ℕ → Option Obj)) (t : Task) (idx n : ℕ)
          → IsItem (make_bulk o t r idx n)
      unfolding make_bulk
      make_bulk-IsItem none t idx n = deliver-IsItem r w none
      make_bulk-IsItem (some make) t idx n =
          IsItem-bind (slice r.buf (r.pos + idx + 2) (r.pos + idx + 2 + n)) _
            (slice-runs r.buf (r.pos + idx + 2) (r.pos + idx + 2 + n))
            λ p. deliver-IsItem _ (moved r w (r.pos + (idx + 2))) (make t p n)

      check_bulk-IsItem : (bad : Bool) (t : Task) (idx n : ℕ) → IsItem (check_bulk f bad t r idx n)
      unfolding check_bulk
      check_bulk-IsItem true t idx n = refused-IsItem r w _ _ refl
      check_bulk-IsItem false t idx n = make_bulk-IsItem f.create_string t idx n

      take_bulk-IsItem : (t : Task) (idx n : ℕ) → IsItem (take_bulk f t r idx n)
      unfolding take_bulk
      take_bulk-IsItem t idx n = elim (Bool-cases (ltb r.len (r.pos + (idx + 2)))) [
        | inl e ↦ rw (e, take_bulk) (inl w)
        | inr e ↦
            rw (e, take_bulk)
              (IsItem-bind (bad_content t.tp r idx n) _ (bad_content-runs t.tp r idx n)
                λ bad. check_bulk-IsItem bad t idx n)
      ]

      bulk_length-IsItem : (t : Task) (idx : ℕ) (z : Parsed ℤ) → IsItem (bulk_length f t r idx z)
      unfolding bulk_length
      bulk_length-IsItem t idx bad_syntax = refused-IsItem r w _ _ refl
      bulk_length-IsItem t idx (bad_range z) = refused-IsItem r w _ _ refl
      bulk_length-IsItem t idx (number (pos n)) = take_bulk-IsItem t idx n
      bulk_length-IsItem t idx (number (negsuc zero)) =
          deliver-IsItem _ (moved r w (idx + 2)) (call f.create_nil λ make. make t)
      bulk_length-IsItem t idx (number (negsuc (suc n))) = refused-IsItem r w _ _ refl

      bulk_at-IsItem : (t : Task) (o : Option ℕ) → IsItem (bulk_at f t r o)
      unfolding bulk_at
      bulk_at-IsItem t none = inl w
      bulk_at-IsItem t (some zero) = inl w
      bulk_at-IsItem t (some (suc i)) =
          IsItem-bind (slice r.buf r.pos (r.pos + suc i)) _ (slice-runs r.buf r.pos (r.pos + suc i))
            λ line. bulk_length-IsItem t (suc i) (parse_int line)

      process_bulk_item-IsItem : IsItem (process_bulk_item f r)
      unfolding process_bulk_item
      process_bulk_item-IsItem =
          IsItem-bind (task_at r.task r.r_idx) _ (task_at-runs r.task r.r_idx) λ t.
            IsItem-bind (slice r.buf r.pos (length r.buf)) _ (slice-runs r.buf r.pos (length r.buf))
              λ rest. bulk_at-IsItem t (seek_newline rest)

      pub process_typed-IsItem : (tp : ReplyType) → IsKnown tp → IsItem (process_typed f tp r)
      unfolding process_typed
      process_typed-IsItem bignumber k = process_read_line-IsItem
      process_typed-IsItem verbatim k = process_bulk_item-IsItem
      process_typed-IsItem push k = elim k [ ]
      process_typed-IsItem attribute k = elim k [ ]
      process_typed-IsItem unknown k = λ h. cc
      process_typed-IsItem _ k = inl w
