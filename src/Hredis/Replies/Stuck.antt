-- ===== src/Hredis/Replies/Stuck.antt =====
-- `GetReply` on a fresh buffer: the types of which the reader does nothing, and big numbers.
use go_mock_redis.Base.{
  ℕ, zero, suc, ◌+◌, ◌-◌, ◌≤◌, ◌≡◌, refl, true, false, Option, none, some, List, [], ◌∷◌, ◌++◌,
  arith, inl, inr, Bool-cases, ltb, leb, ◌==◌, Bytes, length, Run, ok, fault, out_of_range, ◌>>=◌,
}
use go_mock_redis.Base.Signed.{ℤ, pos, negsuc}
use go_mock_redis.Base.Lines.{cut, cut-append}
use go_mock_redis.Hredis.{
  Status, redis_err, redis_ok, no_err, ReplyType, unknown, string, array, integer, nil, status,
  error, double, boolean, dict, collection, bignumber, Task, Makers, Reader, unknown_task, task_at,
  put_task, read_bytes, read_line, slice, move_to_next_task, move_from,
}
use go_mock_redis.Hredis.Items.{
  is_bignum, make_line, deliver, finish_line, line_read, process_line_item,
}
use go_mock_redis.Hredis.Replies.{
  type_of, process_typed, set_type, process_task, process_item, after_item, loop_round,
  process_items, clear_reply, emit, with_task, get_reply,
}

-- The types whose case in `processItem` has no statements.
abbrev pub IsIgnored : ReplyType → Type 0
IsIgnored error = Unit {0}
IsIgnored status = Unit {0}
IsIgnored integer = Unit {0}
IsIgnored double = Unit {0}
IsIgnored nil = Unit {0}
IsIgnored boolean = Unit {0}
IsIgnored string = Unit {0}
IsIgnored array = Unit {0}
IsIgnored dict = Unit {0}
IsIgnored collection = Unit {0}
IsIgnored _ = ⊥

abbrev pub typed : ReplyType → Task
typed tp = record { tp = tp; idx = 0; elements = pos 0 }

module _ {Obj : Type 0} where
  -- A reader at its first task, in no error.
  abbrev pub reader : Bytes → (position rest : ℕ) → (bound : ℤ) → List Task → Reader Obj
  reader buf position rest bound tasks = record {
    err = no_err;
    err_str = [];
    buf = buf;
    pos = position;
    len = rest;
    max_elements = bound;
    r_idx = pos 0;
    task = tasks;
    reply = none;
  }

-- So many calls in a row.
unfoldable pub calls : {Obj : Type 0} → Makers Obj → ℕ → Reader Obj → Run (Status × Reader Obj)
unfolding get_reply
calls f zero r = get_reply f r
calls f (suc n) r = get_reply f r >>= λ (result, r'). calls f n r'

read_type :
    (Obj : Type 0) (c : ℕ) (s : Bytes) (bound : ℤ) (tasks : List Task)
    → read_bytes 1 (reader {Obj = Obj} (c ∷ s) 0 (suc (length s)) bound tasks)
      ≡ ok (some (c ∷ []), reader (c ∷ s) 1 (length s) bound tasks)
unfolding read_bytes slice
read_type Obj c s bound tasks =
    let a : ltb (suc (length s)) 1 ≡ false = ground arith in
    let b : leb 1 (suc (length s)) ≡ true = ground arith in
    let d : suc (length s) - 1 ≡ length s = omega arith in rw (a, b, d) refl

module _ {Obj : Type 0} (f : Makers Obj) where
  typed-ignored :
      (tp : ReplyType) (r : Reader Obj) → IsIgnored tp → process_typed f tp r ≡ ok (redis_err, r)
  unfolding process_typed
  typed-ignored error r h = refl
  typed-ignored status r h = refl
  typed-ignored integer r h = refl
  typed-ignored double r h = refl
  typed-ignored nil r h = refl
  typed-ignored boolean r h = refl
  typed-ignored string r h = refl
  typed-ignored array r h = refl
  typed-ignored dict r h = refl
  typed-ignored collection r h = refl
  typed-ignored _ r h = elim h [ ]

  task-ignored :
      (tp : ReplyType) (t : Task) (r : Reader Obj)
      → IsIgnored tp
      → process_task f tp t r ≡ ok (redis_err, r)
  unfolding process_task
  task-ignored unknown t r h = elim h [ ]
  task-ignored other t r h = typed-ignored other r h

  module _ (buf : Bytes) (bound : ℤ) (tp : ReplyType) (ignored : IsIgnored tp) where
    -- The type is known and nothing is done with it.
    again :
        (position rest : ℕ)
        → position ≤ 1024
        → get_reply f (reader buf position rest bound (typed tp ∷ []))
          ≡ ok (redis_ok, reader buf position rest bound (typed tp ∷ []))
    unfolding get_reply process_items loop_round after_item process_item task_at emit clear_reply
        with_task
    again position rest h =
        let small : ltb 1024 position ≡ false = ground arith in
        let r = reader buf position rest bound (typed tp ∷ []) in
        elim (Bool-cases (rest == 0)) [
          | inl e ↦ rw e refl
          | inr e ↦ rw (e, task-ignored tp (typed tp) r ignored, ◌>>=◌, small) refl
        ]

    again_all :
        (n position rest : ℕ)
        → position ≤ 1024
        → calls f n (reader buf position rest bound (typed tp ∷ []))
          ≡ ok (redis_ok, reader buf position rest bound (typed tp ∷ []))
    unfolding calls
    again_all zero position rest h = again position rest h
    again_all (suc n) position rest h =
        rw (again position rest h, ◌>>=◌) (again_all n position rest h)

  first_call :
      (c : ℕ) (s : Bytes) (bound : ℤ) (tp : ReplyType)
      → type_of c ≡ some tp
      → IsIgnored tp
      → get_reply f (reader (c ∷ s) 0 (suc (length s)) bound [])
        ≡ ok (redis_ok, reader (c ∷ s) 1 (length s) bound (typed tp ∷ []))
  unfolding get_reply process_items loop_round after_item process_item task_at emit clear_reply
      with_task process_task set_type put_task
  first_call c s bound tp e h =
      let filled : (suc (length s) == 0) ≡ false = ground arith in
      let r = reader (c ∷ s) 1 (length s) bound (typed tp ∷ []) in
      rw
        (
          filled,
          read_type Obj c s bound (unknown_task ∷ []),
          ◌>>=◌,
          set_type,
          e,
          typed-ignored tp r h,
          ◌>>=◌,
        )
        refl

  -- A reader without an error and without a task, whose buffer begins with the type byte of an
  -- error, a status, an integer, a double, a nil, a bool, a string, an array, a map or a set,
  -- makes no progress: the first call of `GetReply` takes the type byte, and every later call
  -- reports success and leaves the reader as it is.
  pub calls-stuck :
      (n c : ℕ) (s : Bytes) (bound : ℤ) (tp : ReplyType)
      → type_of c ≡ some tp
      → IsIgnored tp
      → calls f n (reader (c ∷ s) 0 (suc (length s)) bound [])
        ≡ ok (redis_ok, reader (c ∷ s) 1 (length s) bound (typed tp ∷ []))
  unfolding calls
  calls-stuck zero c s bound tp e h = first_call c s bound tp e h
  calls-stuck (suc n) c s bound tp e h =
      rw (first_call c s bound tp e h, ◌>>=◌)
        (again_all (c ∷ s) bound tp h n 1 (length s) (omega arith))

  -- A big number that is complete, and that a function makes an object of.
  module _ (make : Task → Bytes → ℕ → Option Obj) (given : f.create_string ≡ some make)
      (digits rest : Bytes) (bound : ℤ) (obj : Obj) (line : cut digits ≡ none)
      (big : is_bignum digits ≡ true)
      (object : make (typed bignumber) digits (length digits) ≡ some obj) where
    abbrev text : Bytes
    text = b'(' ∷ (digits ++ (13 ∷ 10 ∷ rest))

    number_item :
        (n : ℕ)
        → process_line_item f (reader text 1 n bound (typed bignumber ∷ []))
          ≡ ok (
            redis_ok,
            record (reader text (1 + (length digits + 2)) n bound (typed bignumber ∷ [])) {
              r_idx = negsuc 0;
              reply = some obj;
            },
          )
    unfolding process_line_item task_at read_line line_read make_line finish_line deliver
        move_to_next_task move_from
    number_item n =
        let inside : ltb (suc (length (digits ++ (13 ∷ 10 ∷ rest)))) 1 ≡ false = ground arith in
        rw (inside, cut-append digits rest line, big, given, object) refl

    get_reply-bignumber : get_reply f (reader text 0 (length text) bound []) ≡ fault out_of_range
    unfolding get_reply process_items loop_round after_item process_item task_at emit clear_reply
        with_task process_task set_type put_task type_of process_typed
    get_reply-bignumber =
        let n = length (digits ++ (13 ∷ 10 ∷ rest)) in
        let filled : (suc n == 0) ≡ false = ground arith in
        rw
          (
            filled,
            read_type Obj b'(' (digits ++ (13 ∷ 10 ∷ rest)) bound (unknown_task ∷ []),
            ◌>>=◌,
            number_item n,
          )
          refl
