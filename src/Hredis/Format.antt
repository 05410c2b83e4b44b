-- ===== src/Hredis/Format.antt =====
-- deps/hredis/hredis.go: `redisFormatCommand`.
pub mod Template
use go_mock_redis.Base.{ℕ, Bool, true, false, List, [], ◌∷◌, ◌++◌, ◌==◌, if◌then◌else◌, Bytes}
use go_mock_redis.Base.Text.{rune_text}
use go_mock_redis.Base.Signed.{ℤ}
use go_mock_redis.Base.Strconv.{format_int}

-- An argument of a command, by the type that the code asserts.
pub data Arg : Type 0 where
  text : Bytes → Arg
  int : ℤ → Arg
  other : Arg

pub data FormatError : Type 0 where
  ended not_enough not_a_string not_an_integer : FormatError
  unsupported : ℕ → FormatError

pub data Formatted : Type 0 where
  argv : List Bytes → Formatted
  refused : FormatError → Formatted

-- The variables of the loop but the index: the argument that grows, whether it was begun, and those
-- that are done.
pub record Building : Type 0 where
  pub cur : Bytes
  pub touched : Bool
  pub done : List Bytes

-- Any byte but a per cent sign; `string(c)` makes a character of it.
unfoldable pub plain_byte : ℕ → Building → Building
unfolding rune_text
plain_byte c b =
    if c == b' '
    then if b.touched
      then record b { cur = []; touched = false; done = b.done ++ (b.cur ∷ []) }
      else b
    else record b { cur = b.cur ++ rune_text c; touched = true }

abbrev pub grow : Bytes → Building → Building
grow s b = record b { cur = b.cur ++ s; touched = true }

-- `%s` and `%d`, with what follows when the next argument has the type.
unfoldable pub string_arg : (List Arg → Building → Formatted) → List Arg → Building → Formatted
string_arg rest [] b = refused not_enough
string_arg rest (text s ∷ args) b = rest args (grow s b)
string_arg rest (_ ∷ args) b = refused not_a_string

unfoldable pub int_arg : (List Arg → Building → Formatted) → List Arg → Building → Formatted
unfolding format_int
int_arg rest [] b = refused not_enough
int_arg rest (int z ∷ args) b = rest args (grow (format_int z) b)
int_arg rest (_ ∷ args) b = refused not_an_integer

unfoldable pub specifier : (List Arg → Building → Formatted) → ℕ → List Arg → Building → Formatted
unfolding string_arg int_arg
specifier rest c args b =
    if c == b's'
    then string_arg rest args b
    else if c == b'd'
    then int_arg rest args b
    else refused (unsupported c)

unfoldable pub finish : Building → Formatted
finish b = argv (if b.touched then b.done ++ (b.cur ∷ []) else b.done)

-- The loop over the format.
unfoldable pub format_from : Bytes → List Arg → Building → Formatted
unfolding plain_byte specifier finish
format_from [] args b = finish b
format_from (c ∷ []) args b = if c == b'%' then refused ended else finish (plain_byte c b)
format_from (c ∷ d ∷ s) args b =
    let special = specifier (format_from s) d args b in
    let plain = format_from (d ∷ s) args (plain_byte c b) in if c == b'%' then special else plain

unfoldable pub redis_format_command : Bytes → List Arg → Formatted
unfolding format_from
redis_format_command format args =
    format_from format args (record { cur = []; touched = false; done = [] })
