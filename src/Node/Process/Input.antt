-- ===== src/Node/Process/Input.antt =====
-- node/client.go, `processInputBuffer`.
use go_mock_redis.Base.{
  ℕ, zero, suc, ◌<◌, ◌≤◌, ◌≡◌, refl, Bool, true, false, not, ◌&&◌, ◌||◌, arith, Bytes, ltb, leb,
  ◌==◌, if◌then◌else◌, none, length, drop, Run, ok, fault, Fault, ◌>>=◌, Bool-cases, inl, inr, ◌⊎◌,
  ap, sym, ◌∙◌,
}
use go_mock_redis.Base.Words.{clear_bit}
use go_mock_redis.Db.Dict.{HashTable, at}
use go_mock_redis.Db.Dict.Buckets.{at-get_or}
use go_mock_redis.Db.Object.{RedisObj}
use go_mock_redis.Node.Flags.{
  has, blocked, pending_command, close_after_reply, close_asap, multi, master, bit,
  executing_command,
}
use go_mock_redis.Node.Command.{Command}
use go_mock_redis.Node.Process.{Session, unknown, inline, multi_bulk, reset_client, drop_unless}
use go_mock_redis.Node.Process.Checks.{process_command}

-- `buf[n:]`
unfoldable pub slice_from : Bytes → ℕ → Run Bytes
slice_from buf n = if leb n (length buf) then ok (drop n buf) else fault Fault.out_of_range

-- The flags that end the loop.
unfoldable pub is_stopped : Session → Bool
unfolding has
is_stopped s =
    has s.client.flags blocked
    || has s.client.flags pending_command
    || (has s.client.flags close_after_reply || has s.client.flags close_asap)

-- What happens behind the loop.
unfoldable pub trim_input : Session → Run Session
unfolding has slice_from
trim_input s =
    if has s.client.flags master
    then (if s.repl_applied == 0 then ok s else (do
      rest ← slice_from s.query_buf s.repl_applied
      ok (record s { query_buf = rest; query_pos = s.repl_applied; repl_applied = 0 })))
    else if s.query_pos == 0
    then ok s
    else (do
      rest ← slice_from s.query_buf s.query_pos
      ok (record s { query_buf = rest; query_pos = 0 }))

-- A type that is known already is a panic.
unfoldable pub determine_type : Session → Run Session
unfolding at
determine_type s = elim s.req_type [
  | unknown ↦ do
    a ← at s.query_buf s.query_pos
    ok (record s { req_type = if a == b'*' then multi_bulk else inline })
  | _ ↦ fault Fault.explicit_panic
]

and_false : (b : Bool) → (b && false) ≡ false
and_false true = refl
and_false false = refl

still_outside :
    (w : ℕ) → has w multi ≡ false → has (clear_bit w (bit executing_command)) multi ≡ false
unfolding has bit
still_outside w outside = ground arith

module _ (render : ℕ → RedisObj → Bytes) where
  -- The loop, with the rounds that are left. The error of `processCommandAndResetClient` is always nil.
  unfoldable pub process_input_buffer :
      ℕ → HashTable Bytes Command → ℕ → Session → Run (Session × Bool)
  unfolding is_stopped trim_input determine_type reset_client process_command
  process_input_buffer zero commands user_flags s = fault Fault.no_fuel
  process_input_buffer (suc rounds) commands user_flags s =
      elim (ltb s.query_pos (length s.query_buf) && not (is_stopped s)) [
        | false ↦ do s' ← trim_input s; ok (s', true)
        | true ↦ do
          s₁ ← determine_type s
          s₂ ←
              (if s₁.client.argc == 0
                then reset_client s₁
                else (do (s', done) ← process_command render commands user_flags s₁; ok s'))
          process_input_buffer rounds commands user_flags s₂
      ]

  module _ (rounds : ℕ) (commands : HashTable Bytes Command) (user_flags : ℕ) (s : Session) where
    -- When everything has been read, or a flag stops the client within its buffer, the input loop
    -- of a client that is no master ends in its first round, and trims the buffer to what has not
    -- been read and changes nothing else.
    process_input_buffer-stopped :
        (s.query_pos ≡ length s.query_buf)
          ⊎ ((is_stopped s ≡ true) × (s.query_pos ≤ length s.query_buf))
        → has s.client.flags master ≡ false
        → process_input_buffer (suc rounds) commands user_flags s
          ≡ ok (record s { query_buf = drop s.query_pos s.query_buf; query_pos = 0 }, true)
    unfolding process_input_buffer trim_input slice_from
    process_input_buffer-stopped idle server =
        let within : s.query_pos ≤ length s.query_buf = elim idle [
          | inl e ↦ omega arith
          | inr (t, h) ↦ h
        ] in
        let ends : (ltb s.query_pos (length s.query_buf) && not (is_stopped s)) ≡ false =
          elim idle [
            | inl e ↦
                (let last : ltb s.query_pos (length s.query_buf) ≡ false = ground arith in
                  rw last refl)
            | inr (t, h) ↦ rw t (and_false (ltb s.query_pos (length s.query_buf)))
          ] in
        let cut : leb s.query_pos (length s.query_buf) ≡ true = ground arith in
        elim (Bool-cases (s.query_pos == 0)) [
          | inr f ↦ rw (ends, process_input_buffer, server, f, cut, ◌>>=◌) refl
          | inl z ↦
              let start : s.query_pos ≡ 0 = ground arith in
              rw (ends, process_input_buffer, server, z, ◌>>=◌)
                (ap (λ p. ok (record s { query_pos = p }, true)) start
                  ∙ ap (λ p. ok (record s { query_buf = drop p s.query_buf; query_pos = 0 }, true))
                      (sym start))
        ]

    -- For a client without a command and without arguments, outside MULTI and not stopped, whose
    -- type of request is not known yet, the first byte that waits to be read makes the input loop
    -- fail with a call of a method of nil.
    pub process_input_buffer-panics :
        s.query_pos < length s.query_buf
        → is_stopped s ≡ false
        → s.req_type ≡ unknown
        → s.client.argc ≡ 0
        → s.cmd ≡ none
        → has s.client.flags multi ≡ false
        → process_input_buffer (suc rounds) commands user_flags s ≡ fault Fault.nil_pointer
    unfolding process_input_buffer determine_type reset_client drop_unless
    process_input_buffer-panics waits runs fresh empty no_cmd outside =
        let more : ltb s.query_pos (length s.query_buf) ≡ true = ground arith in
        let read = at-get_or s.query_buf s.query_pos 0 waits in
        rw
          (
            more,
            process_input_buffer,
            runs,
            fresh,
            read,
            ◌>>=◌,
            empty,
            still_outside s.client.flags outside,
            no_cmd,
          )
          refl
