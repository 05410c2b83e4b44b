-- ===== src/Hredis/Items.antt =====
-- deps/hredis/read.go: `processLineItem`, and what every item ends with.
use go_mock_redis.Base.{
  ℕ, zero, Bool, true, false, ◌&&◌, ◌||◌, Option, none, some, [], ◌∷◌, leb, ◌==◌, if◌then◌else◌,
  Bytes, codes, length, Run, ok, ◌>>=◌,
}
use go_mock_redis.Base.Text.{equal_fold}
use go_mock_redis.Base.Decimal.{is_digit, all_digits}
use go_mock_redis.Base.Signed.{ℤ, pos}
use go_mock_redis.Base.Strconv.{Parsed, number, bad_syntax, bad_range, parse_int}
use go_mock_redis.Hredis.{
  Status, redis_err, redis_ok, protocol_err, ReplyType, integer, nil, double, boolean, bignumber,
  Task, Double, infinite, negative_infinite, not_a_number, parsed_float, Makers, Reader, task_at,
  set_err, set_err_oom, read_line, move_to_next_task,
}

-- The object of an item, none where no function makes one, or the text of an error.
pub data Made (Obj : Type 0) : Type 0 where
  refused : Bytes → Made Obj
  made : Option Obj → Made Obj

-- A function that may be nil.
abbrev pub call {ℓ} : {F : Type ℓ} {Obj : Type 0} → Option F → (F → Option Obj) → Option Obj
call none use_it = none
call (some f) use_it = use_it f

-- `strings.ContainsRune("tTfF", c)` and `strings.ContainsRune("tT", c)`
abbrev pub is_bool_byte : ℕ → Bool
is_bool_byte c = (c == b't') || (c == b'T') || (c == b'f') || (c == b'F')

abbrev pub is_true_byte : ℕ → Bool
is_true_byte c = (c == b't') || (c == b'T')

-- A minus sign may stand in front of the digits; there may be none.
unfoldable pub is_bignum : Bytes → Bool
unfolding all_digits
is_bignum [] = true
is_bignum (c ∷ s) = ((c == b'-') || is_digit c) && all_digits s

unfoldable pub has_line_byte : Bytes → Bool
has_line_byte [] = false
has_line_byte (c ∷ s) = (c == b'\r') || (c == b'\n') || has_line_byte s

-- The numbers that a text of this length can name.
unfoldable pub special_double : Bytes → Option Double
unfolding equal_fold
special_double s =
    let l = length s in
    if (l == 3) && equal_fold s (codes "inf")
    then some infinite
    else if (l == 4) && equal_fold s (codes "-inf")
    then some negative_infinite
    else if ((l == 3) && equal_fold s (codes "nan")) || ((l == 4) && equal_fold s (codes "-nan"))
    then some not_a_number
    else none

module _ {Obj : Type 0} where
  -- What follows when an item has its object: only the root item succeeds.
  unfoldable pub deliver : Reader Obj → Option Obj → Run (Status × Reader Obj)
  unfolding move_to_next_task set_err_oom
  deliver r none = ok (redis_err, set_err_oom r)
  deliver r (some obj) = elim r.r_idx [
    | pos zero ↦ do r' ← move_to_next_task (record r { reply = some obj }); ok (redis_ok, r')
    | _ ↦ ok (redis_err, r)
  ]

  unfoldable pub finish_line : Reader Obj → Made Obj → Run (Status × Reader Obj)
  unfolding deliver set_err
  finish_line r (refused text) = ok (redis_err, set_err r protocol_err text)
  finish_line r (made o) = deliver r o

module _ {Obj : Type 0} (f : Makers Obj) where
  make_integer : Task → Parsed ℤ → Made Obj
  make_integer t (number n) = made (call f.create_integer λ make. make t n)
  make_integer t bad_syntax = refused (codes "Bad integer value")
  make_integer t (bad_range n) = refused (codes "Bad integer value")

  make_double : Task → Bytes → Made Obj
  unfolding special_double
  make_double t p =
      if leb 326 (length p)
      then refused (codes "Double value is too large")
      else elim (special_double p) [
        | some d ↦ made (call f.create_double λ make. make t d p (length p))
        | none ↦
            if f.reads_float p
            then made (call f.create_double λ make. make t (parsed_float p) p (length p))
            else refused (codes "Bad double value")
      ]

  make_bool : Task → Bytes → Made Obj
  make_bool t (c ∷ []) =
      if is_bool_byte c
      then made (call f.create_bool λ make. make t (is_true_byte c))
      else refused (codes "Bad bool value")
  make_bool t _ = refused (codes "Bad bool value")

  -- The branches of `processLineItem`.
  unfoldable pub make_line : ReplyType → Task → Bytes → Made Obj
  unfolding make_integer make_double make_bool is_bignum has_line_byte
  make_line integer t p = make_integer t (parse_int p)
  make_line double t p = make_double t p
  make_line nil t p =
      if length p == 0
      then made (call f.create_nil λ make. make t)
      else refused (codes "Bad nil value")
  make_line boolean t p = make_bool t p
  make_line bignumber t p =
      if is_bignum p
      then made (call f.create_string λ make. make t p (length p))
      else refused (codes "Bad bignumber value")
  make_line other t p =
      if has_line_byte p
      then refused (codes "Bad simple string value")
      else made (call f.create_string λ make. make t p (length p))

  unfoldable pub line_read : Task → Option Bytes × Reader Obj → Run (Status × Reader Obj)
  unfolding finish_line make_line
  line_read t (none, r) = ok (redis_err, r)
  line_read t (some p, r) = finish_line r (make_line t.tp t p)

  unfoldable pub process_line_item : Reader Obj → Run (Status × Reader Obj)
  unfolding task_at read_line line_read
  process_line_item r = do t ← task_at r.task r.r_idx; line_read t (← read_line r)
