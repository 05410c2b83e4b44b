-- ===== src/Hredis/Replies/Silent.antt =====
-- `GetReply` from a new reader on: it ends, and it never has a reply for its caller.
use go_mock_redis.Base.{
  ◌≡◌, ◌≢◌, ◌⊎◌, refl, true, false, none, some, List, inl, inr, [], ◌∷◌, Bytes, Bool-cases,
  Option-cases, Run, ok, fault, out_of_range, no_fuel, ◌>>=◌, leb, ltb, length, ◌+◌, ◌==◌, sym, ap,
  ◌∙◌,
}
use mathlib.Core.Path.{subst}
use go_mock_redis.Base.Signed.{ℤ, pos, negsuc}
use go_mock_redis.Hredis.{
  Status, redis_err, redis_ok, ReplyType, unknown, Task, Makers, Reader, has_err, unknown_task,
  task_at, put_task, set_err_protocol_byte, read_bytes, slice,
}
use go_mock_redis.Hredis.Replies.{
  type_of, set_type, process_task, process_item, process_items, loop_round, after_item, get_reply,
  clear_reply, emit, with_task,
}
use go_mock_redis.Hredis.Replies.Idle.{
  IsKnown, IsRoot, Waits, IsIdle, IsItem, process_typed-IsItem, refused-IsItem, slice-runs,
  type_of-IsKnown,
}

put-IsRoot :
    (tasks : List Task) (tp : ReplyType) (t : Task)
    → IsRoot tasks
    → IsKnown tp
    → IsRoot (put_task tasks (pos 0) (record t { tp = tp }))
unfolding put_task
put-IsRoot [] tp t h k = h
put-IsRoot (a ∷ []) tp t h k = k
put-IsRoot (a ∷ b ∷ more) tp t h k = elim h [ ]

module _ {Obj : Type 0} (f : Makers Obj) where
  IsItem-map :
      {A B : Type 0} (c : Run A) (g : A → B) (k : B → Run (Status × Reader Obj))
      → c ≢ fault no_fuel
      → ((a : A) → IsItem (k (g a)))
      → IsItem ((c >>= λ a. ok (g a)) >>= k)
  IsItem-map (fault panic) g k h step = λ e. h (ap fault e)
  IsItem-map (ok a) g k h step = step a

  retyped :
      (r : Reader Obj) (t : Task) (tp : ReplyType)
      → Waits r
      → IsKnown tp
      → Waits (record r { task = put_task r.task r.r_idx (record t { tp = tp }) })
  retyped r t tp w k = record {
    at_root = w.at_root;
    one_task = rw w.at_root (put-IsRoot r.task tp t w.one_task k);
    no_reply = w.no_reply;
  }

  set_type-IsItem :
      (t : Task) (r : Reader Obj) (p : Bytes) → Waits r → IsItem (set_type f t (some p, r))
  unfolding set_type set_err_protocol_byte
  set_type-IsItem t r [] w = λ h. cc
  set_type-IsItem t r (c ∷ p) w = elim (Option-cases (type_of c)) [
    | inl e ↦ rw (set_type, e) (refused-IsItem r w _ _ refl)
    | inr (tp, e) ↦
        rw (set_type, e)
          (process_typed-IsItem f _ (retyped r t tp w (type_of-IsKnown c tp e)) tp
            (type_of-IsKnown c tp e))
  ]

  read_bytes-IsItem :
      (r : Reader Obj) (t : Task) → Waits r → IsItem (read_bytes 1 r >>= set_type f t)
  unfolding read_bytes set_type
  read_bytes-IsItem r t w = elim (Bool-cases (ltb r.len 1)) [
    | inl e ↦ rw (e, read_bytes) (inl w)
    | inr e ↦
        rw (e, read_bytes)
          (IsItem-map (slice r.buf r.pos (r.pos + 1)) _ (set_type f t)
            (slice-runs r.buf r.pos (r.pos + 1))
            λ p.
              set_type-IsItem t _ p
                (record { at_root = w.at_root; one_task = w.one_task; no_reply = w.no_reply }))
  ]

  process_task-IsItem :
      (tp : ReplyType) (t : Task) (r : Reader Obj)
      → Waits r
      → IsKnown tp
      → IsItem (process_task f tp t r)
  unfolding process_task
  process_task-IsItem unknown t r w k = read_bytes-IsItem r t w
  process_task-IsItem other t r w k = process_typed-IsItem f r w other k

  IsItem-at :
      (tasks : List Task) (r : Reader Obj)
      → IsRoot tasks
      → Waits r
      → IsItem (task_at tasks (pos 0) >>= λ t. process_task f t.tp t r)
  unfolding task_at
  IsItem-at [] r h w = λ e. cc
  IsItem-at (t ∷ []) r h w = process_task-IsItem t.tp t r w h
  IsItem-at (a ∷ b ∷ more) r h w = elim h [ ]

  process_item-IsItem : (r : Reader Obj) → Waits r → IsItem (process_item f r)
  unfolding process_item
  process_item-IsItem r w =
      subst (λ i. IsItem (task_at r.task i >>= λ t. process_task f t.tp t r)) (sym w.at_root)
        (IsItem-at r.task r w.one_task w)

  -- Below the stack the next item is asked of a task that is not there.
  process_item-below : (r : Reader Obj) → r.r_idx ≡ negsuc 0 → process_item f r ≡ fault out_of_range
  unfolding process_item task_at
  process_item-below r e = rw (process_item, e) refl

  -- What the loop comes to.
  abbrev IsSettled : Run (Reader Obj) → Type 0
  IsSettled (fault panic) = panic ≢ no_fuel
  IsSettled (ok r) = IsIdle r

  round_below :
      (rest : Reader Obj → Run (Reader Obj)) (tasks : List Task) (r : Reader Obj)
      → r.r_idx ≡ negsuc 0
      → tasks ≢ []
      → loop_round f rest tasks r ≡ fault out_of_range
  unfolding loop_round
  round_below rest [] r e n = absurd (n refl)
  round_below rest (t ∷ more) r e n = rw (process_item-below r e) refl

  second_round :
      (result : Run (Status × Reader Obj))
      → IsItem result
      → IsSettled (result >>= after_item (process_items f 1))
  unfolding after_item process_items
  second_round (fault panic) h = h
  second_round (ok (redis_ok, r)) h = rw (round_below (process_items f 0) r.task r h.0 h.1) λ e. cc
  second_round (ok (redis_err, r)) h = h

  first_round :
      (tasks : List Task) (r : Reader Obj)
      → IsRoot tasks
      → Waits r
      → IsSettled (loop_round f (process_items f 1) tasks r)
  unfolding loop_round
  first_round [] r h w = elim h [ ]
  first_round (t ∷ more) r h w = second_round (process_item f r) (process_item-IsItem r w)

  process_items-IsSettled : (r : Reader Obj) → Waits r → IsSettled (process_items f 2 r)
  unfolding process_items
  process_items-IsSettled r w = first_round r.task r w.one_task w

-- The end of a call: an error, or a reader that still waits.
abbrev pub IsSilent : {Obj : Type 0} → Run (Status × Reader Obj) → Type 0
IsSilent (fault panic) = panic ≢ no_fuel
IsSilent (ok (redis_ok, r)) = Waits r
IsSilent (ok (redis_err, r)) = IsIdle r

cleared : {Obj : Type 0} (i : ℤ) (r : Reader Obj) → i ≡ pos 0 → Waits r → Waits (clear_reply i r)
unfolding clear_reply
cleared i r e w = subst (λ j. Waits (clear_reply j r)) (sym e) w

rewound :
    {Obj : Type 0} (r : Reader Obj) → Waits r → Waits (record r { pos = 0; len = length r.buf })
rewound r w = record { at_root = w.at_root; one_task = w.one_task; no_reply = w.no_reply }

true-ne-false : true ≢ false
true-ne-false e = cc

emit-IsSilent : {Obj : Type 0} (r : Reader Obj) → IsIdle r → IsSilent (ok (emit r))
unfolding emit
emit-IsSilent r (inr x) = rw (emit, x.has_error) (inr x)
emit-IsSilent r (inl w) = elim (Bool-cases (has_err r.err)) [
  | inl e ↦ rw (emit, e) (inl w)
  | inr e ↦ elim (Bool-cases (ltb 1024 r.pos)) [
    | inr small ↦ rw (emit, e, small) (cleared r.r_idx r w.at_root w)
    | inl large ↦ elim (Bool-cases (leb r.len r.pos)) [
      | inl past ↦ rw (emit, e, large, past) (inl w)
      | inr left ↦ rw (emit, e, large, left) (cleared r.r_idx _ w.at_root (rewound r w))
    ]
  ]
]

-- A reader on which `GetReply` was not called yet.
pub record IsNew {Obj : Type 0} (r : Reader Obj) : Type 0 where
  pub at_start : r.r_idx ≡ pos 0
  pub no_task : r.task ≡ []
  pub no_reply : r.reply ≡ none

-- The result of a call, whose reader may still be new where the buffer was empty.
abbrev pub IsQuiet : {Obj : Type 0} → Run (Status × Reader Obj) → Type 0
IsQuiet (fault panic) = panic ≢ no_fuel
IsQuiet (ok (result, r)) = IsNew r ⊎ IsIdle r

IsSilent-IsQuiet :
    {Obj : Type 0} (result : Run (Status × Reader Obj)) → IsSilent result → IsQuiet result
IsSilent-IsQuiet (fault panic) h = h
IsSilent-IsQuiet (ok (redis_ok, r)) h = inr (inl h)
IsSilent-IsQuiet (ok (redis_err, r)) h = inr h

module _ {Obj : Type 0} (f : Makers Obj) where
  started : (r : Reader Obj) → IsNew r ⊎ Waits r → Waits (with_task r)
  unfolding with_task
  started r (inl n) =
      rw (with_task, n.no_task)
        (record { at_root = n.at_start; one_task = tt; no_reply = n.no_reply })
  started r (inr w) = go r.task r w w.one_task
    where
      go :
          (tasks : List Task) (r : Reader Obj)
          → Waits r
          → IsRoot tasks
          → Waits (elim tasks [ [] ↦ record r { task = unknown_task ∷ [] } | _ ↦ r ])
      go [] r w h = elim h [ ]
      go (t ∷ more) r w h = w

  run-IsSilent :
      (result : Run (Reader Obj)) → IsSettled f result → IsSilent (result >>= λ r. ok (emit r))
  run-IsSilent (fault panic) h = h
  run-IsSilent (ok r) h = emit-IsSilent r h

  -- `GetReply` on a new reader, or on one that such calls have led to, ends after two rounds at
  -- most: it panics, or the reader is in an error or still at its first task, and in no case has
  -- it a reply.
  pub get_reply-IsQuiet : (r : Reader Obj) → IsNew r ⊎ IsIdle r → IsQuiet (get_reply f r)
  unfolding get_reply
  get_reply-IsQuiet r h = elim (Bool-cases (has_err r.err)) [
    | inl e ↦ rw (get_reply, e) h
    | inr e ↦ elim (Bool-cases (r.len == 0)) [
      | inl z ↦ rw (get_reply, e, z) h
      | inr z ↦
          rw (get_reply, e, z)
            (IsSilent-IsQuiet (process_items f 2 (with_task r) >>= λ r'. ok (emit r')) (
              run-IsSilent (process_items f 2 (with_task r))
                (process_items-IsSettled f (with_task r) (started r (usable h e)))))
    ]
  ]
    where
      usable : IsNew r ⊎ IsIdle r → has_err r.err ≡ false → IsNew r ⊎ Waits r
      usable (inl n) e = inl n
      usable (inr (inl w)) e = inr w
      usable (inr (inr x)) e = absurd (true-ne-false (sym x.has_error ∙ e))
