-- ===== src/Node/Options.antt =====
-- node/strcmd.go, `parseExtendedStringArgumentsOrReply`: the options of SET and GET.
pub mod Exclusive
pub mod Parser
pub mod Rounds
use go_mock_redis.Base.{
  ℕ, zero, suc, ◌+◌, ◌-◌, ◌≡◌, refl, Bool, true, false, not, ◌&&◌, ◌||◌, List, [], ◌∷◌, arith,
  Bytes, codes, ltb, ◌==◌, if◌then◌else◌, Option, none, some, Run, ok, fault, Fault, ◌>>=◌,
}
use go_mock_redis.Base.Tests.{bytes_eq}
use go_mock_redis.Base.Text.{to_upper, equal_fold}
use go_mock_redis.Base.Words.{has_bit, set_bit}
use go_mock_redis.Db.Dict.{at}
use go_mock_redis.Db.Object.{RedisObj, Any, str}
use go_mock_redis.Node.Client.{Client, add_reply, shared_syntax_err}

-- The flags of `StrSetType`.
pub data SetFlag : Type 0 where
  nx xx ex px keep_ttl get exat pxat persist : SetFlag

unfoldable pub bit : SetFlag → ℕ
bit nx = 0
bit xx = 1
bit ex = 2
bit px = 3
bit keep_ttl = 4
bit get = 5
bit exat = 6
bit pxat = 7
bit persist = 8

-- `flags&F != 0` and `flags |= F`
unfoldable pub has : ℕ → SetFlag → Bool
unfolding bit
has flags f = has_bit flags (bit f)

unfoldable pub add_flag : ℕ → SetFlag → ℕ
unfolding bit
add_flag flags f = set_bit flags (bit f)

pub data CommandType : Type 0 where
  command_set command_get : CommandType

-- `UintSeconds` and `UintMilliseconds`.
pub data TimeUnit : Type 0 where
  seconds milliseconds : TimeUnit

abbrev pub is_set : CommandType → Bool
is_set command_set = true
is_set command_get = false

-- None of the flags is there.
unfoldable pub lacks : ℕ → List SetFlag → Bool
unfolding has
lacks flags [] = true
lacks flags (f ∷ fs) = not (has flags f) && lacks flags fs

-- What one argument does: set a flag, set a flag and take the next argument for the expire time (and
-- milliseconds for its unit), or break the syntax.
pub data Choice : Type 0 where
  plain : SetFlag → Choice
  timed : SetFlag → TimeUnit → Choice
  bad : Choice

unfoldable pub choose : ℕ → CommandType → Bytes → Bool → Choice
choose flags type opt has_next =
    let upper = to_upper opt in
    if bytes_eq upper (codes "NX") && lacks flags (xx ∷ []) && is_set type
    then plain nx
    else if bytes_eq upper (codes "XX") && lacks flags (nx ∷ []) && is_set type
    then plain xx
    else if bytes_eq upper (codes "GET") && is_set type
    then plain get
    else if equal_fold opt (codes "KEEPTTL")
        && lacks flags (persist ∷ ex ∷ exat ∷ px ∷ pxat ∷ [])
        && is_set type
    then plain keep_ttl
    else if equal_fold opt (codes "PERSIST")
        && lacks flags (ex ∷ exat ∷ px ∷ pxat ∷ keep_ttl ∷ [])
        && not (is_set type)
    then plain persist
    else if bytes_eq upper (codes "EX")
        && lacks flags (keep_ttl ∷ persist ∷ exat ∷ pxat ∷ px ∷ [])
        && has_next
    then timed ex seconds
    else if bytes_eq upper (codes "PX")
        && lacks flags (keep_ttl ∷ persist ∷ ex ∷ exat ∷ pxat ∷ [])
        && has_next
    then timed px milliseconds
    else if bytes_eq upper (codes "EXAT")
        && lacks flags (keep_ttl ∷ persist ∷ ex ∷ pxat ∷ px ∷ [])
        && has_next
    then timed exat seconds
    else if bytes_eq upper (codes "PXAT")
        && lacks flags (keep_ttl ∷ persist ∷ ex ∷ exat ∷ px ∷ [])
        && has_next
    then timed pxat milliseconds
    else bad

-- The results of the function.
pub record Parsed : Type 0 where
  pub ret_flags : ℕ
  pub expire : Option RedisObj
  pub unit : TimeUnit
  pub ok_flag : Bool

-- `uint` is set to milliseconds by PX and PXAT, and left alone by EX and EXAT.
abbrev pub unit_after : TimeUnit → TimeUnit → TimeUnit
unit_after milliseconds old = milliseconds
unit_after seconds old = old

-- `v.(string)` with its flag.
abbrev pub text_of : Any → Option Bytes
text_of (str s) = some s
text_of _ = none

-- The loop, with the rounds that are left. An argument that is no text ends it with the result
-- false; one that breaks the syntax ends it with the value that the type assertion gave `ok`: true.
unfoldable pub parse_from : ℕ → ℕ → Client → CommandType → Parsed → Run (Client × Parsed)
unfolding at choose lacks to_upper equal_fold bytes_eq add_flag add_reply shared_syntax_err
parse_from zero j c type p = ok (c, record p { ok_flag = true })
parse_from (suc rounds) j c type p = elim (ltb j c.argc) [
  | false ↦ ok (c, record p { ok_flag = true })
  | true ↦ do
    arg ← at c.argv j
    elim (text_of arg.value) [
      | some opt ↦ elim (choose p.ret_flags type opt (not (j == c.argc - 1))) [
        | plain f ↦
            parse_from rounds (j + 1) c type
              (record p { ret_flags = add_flag p.ret_flags f; ok_flag = true })
        | timed f unit ↦ do
          next ← at c.argv (j + 1)
          parse_from rounds (j + 2) c type (record p {
            ret_flags = add_flag p.ret_flags f;
            expire = some next;
            unit = unit_after unit p.unit;
            ok_flag = true;
          })
        | bad ↦ do c' ← add_reply c shared_syntax_err; ok (c', record p { ok_flag = true })
      ]
      | none ↦ do c' ← add_reply c shared_syntax_err; ok (c', record p { ok_flag = false })
    ]
]

-- `next` is also read where the option does not use it: the argument behind the last but one.
abbrev pub first_option : CommandType → ℕ
first_option command_set = 3
first_option command_get = 2

unfoldable pub parse_extended_string_arguments_or_reply :
    Client → ℕ → CommandType → Run (Client × Parsed)
unfolding parse_from
parse_extended_string_arguments_or_reply c flags type =
    parse_from (c.argc - first_option type) (first_option type) c type
      (record { ret_flags = flags; expire = none; unit = seconds; ok_flag = false })
