-- ===== src/Tests/Process.antt =====
-- The input, the checks and the access control of node/client.go and node/acl.go at concrete inputs.
use go_mock_redis.Base.{
  get_elem?, if◌then◌else◌, ℕ, ◌≡◌, refl, arith, List, [], ◌∷◌, true, false, Bytes, codes, none,
  some, ok, fault, Fault, Returns, inl, ◌++◌,
}
use go_mock_redis.Base.Tests.{bytes_eq}
use go_mock_redis.Base.Text.{equal_fold, upper, rune_width}
use go_mock_redis.Base.Runes.{equal_fold_runes}
use go_mock_redis.Db.Hash.{bytes_key}
use go_mock_redis.Db.Dict.{HashTable, new_hash_table, at}
use go_mock_redis.Db.Dict.Steps.{Models}
use go_mock_redis.Db.Dict.Tables.{new_hash_table-Models}
use go_mock_redis.Db.Object.{RedisObj}
use go_mock_redis.Node.Client.{Client, as_string}
use go_mock_redis.Node.Command
use go_mock_redis.Node.Command.{Command, Arity, exactly}
use go_mock_redis.Node.Command.Access.{
  selector_bit, Selector, acl_ok, acl_denied_cmd, check_cmd, cmd_bit,
}
use go_mock_redis.Node.Command.Access.Restricted.{IsRestricted, is_each, check_cmd-restricted}
use go_mock_redis.Node.Process.{Session, unknown, minus_one}
use go_mock_redis.Node.Process.Inline.{Inline, index_byte, process_inline_buffer}
use go_mock_redis.Node.Process.Inline.Fields.{IsVisible}
use go_mock_redis.Node.Process.Inline.Line.{
  IsRead, process_inline_buffer-IsRead, process_inline_buffer-faults,
}
use go_mock_redis.Node.Process.Checks.{process_command}
use go_mock_redis.Node.Process.Checks.Unknown.{Asks, process_command-unknown}
use go_mock_redis.Node.Process.Input.{is_stopped, process_input_buffer, process_input_buffer-panics}
use go_mock_redis.Tests.Keyspace.{text, nothing}

-- A stand-in for what `fmt` prints of an object.
abbrev render : ℕ → RedisObj → Bytes
render n o = codes "object"

abbrev no_commands : HashTable Bytes Command
no_commands = new_hash_table 16

no_commands-Models : Models 0 nothing no_commands
no_commands-Models = new_hash_table-Models 16 (omega arith)

abbrev connected : ℕ → List RedisObj → ℕ → Client
connected flags argv argc = record {
  flags = flags;
  connected = true;
  argv = argv;
  argc = argc;
  command = none;
  written = [];
}

abbrev session : Client → Bytes → ℕ → Session
session client buf pos = record {
  client = client;
  query_buf = buf;
  query_pos = pos;
  cmd = none;
  last_cmd = none;
  real_cmd = none;
  req_type = unknown;
  multi_bulk_len = 0;
  bulk_len = minus_one;
  slot = minus_one;
  duration = 0;
  repl_applied = 0;
  authenticated = false;
}

abbrev asking : Session
asking = session (connected 0 (text (codes "FLY") ∷ []) 1) [] 0

asking-Asks : Asks asking (codes "FLY")
unfolding at as_string equal_fold
asking-Asks = record {
  argument = text (codes "FLY");
  is_there = refl;
  text = refl;
  no_host = refl;
  no_post = refl;
}

process_command-unknown_example : process_command render no_commands 0 asking ≡ ok (asking, true)
process_command-unknown_example =
    process_command-unknown render no_commands 0 no_commands-Models asking (codes "FLY") asking-Asks
      refl refl

abbrev waiting : Session
waiting = session (connected 0 [] 0) (codes "GET a") 0

process_input_buffer-panics_example :
    process_input_buffer render 10 no_commands 0 waiting ≡ fault Fault.nil_pointer
unfolding is_stopped
process_input_buffer-panics_example =
    process_input_buffer-panics render 9 no_commands 0 waiting (omega arith) refl refl refl refl
      refl

-- The client is blocked, which is bit 4, and has read the first four bytes.
abbrev stopped : Session
stopped = session (connected 16 [] 0) (codes "GET a") 4

abbrev config : Command
config = record {
  full_name = codes "config";
  id = 0;
  arity = exactly 2;
  flags = 0;
  is_container = false;
  has_parent = false;
  rejected_calls = 0;
}

abbrev selector : List Bytes → Selector
selector names = record {
  flags = 0;
  allowed_commands = 0 ∷ [];
  allowed_first_args = some (some (names ++ ([] ∷ [])) ∷ []);
}

selector-IsRestricted :
    (names : List Bytes) → IsRestricted (selector names) config 2 (names ++ ([] ∷ []))
unfolding at cmd_bit selector_bit Command.has
selector-IsRestricted names = record {
  not_all = refl;
  needs_auth = refl;
  not_allowed = refl;
  has_argument = omega arith;
  table = some (names ++ ([] ∷ [])) ∷ [];
  restricts = refl;
  entry = refl;
}

abbrev config_with : Bytes → List RedisObj
config_with word = text (codes "config") ∷ text word ∷ []

abbrev only_get : List Bytes
only_get = codes "get" ∷ []

abbrev get_and_set : List Bytes
get_and_set = codes "get" ∷ codes "set" ∷ []

-- CONFIG GET is the only one that is allowed, and it is denied.
check_cmd_get :
    check_cmd upper (selector only_get) config (config_with (codes "GET")) 2 ≡ ok acl_denied_cmd
unfolding at as_string equal_fold_runes upper rune_width is_each bytes_eq
check_cmd_get =
    (check_cmd-restricted upper (selector only_get) config (config_with (codes "GET")) 2 only_get []
      (text (codes "GET")) (codes "GET") (selector-IsRestricted only_get) (omega arith, tt) refl
      refl).0

-- CONFIG GET and CONFIG SET are allowed, and so is CONFIG FLY.
check_cmd-restricted_example :
    (check_cmd upper (selector get_and_set) config (config_with (codes "fly")) 2
      ≡ ok (if is_each upper (codes "fly") get_and_set then acl_denied_cmd else acl_ok))
    × ((i j : ℕ) (x y : Bytes)
        → get_elem? get_and_set i ≡ some x
        → get_elem? get_and_set j ≡ some y
        → equal_fold_runes upper x y ≡ false
        → check_cmd upper (selector get_and_set) config (config_with (codes "fly")) 2 ≡ ok acl_ok)
unfolding at as_string
check_cmd-restricted_example =
    check_cmd-restricted upper (selector get_and_set) config (config_with (codes "fly")) 2
      get_and_set [] (text (codes "fly")) (codes "fly") (selector-IsRestricted get_and_set)
      (omega arith, (omega arith, tt)) refl refl

-- `get a` with its line end, and what is missing of it.
abbrev inline_client : Bytes → ℕ → Inline
inline_client buf pos = record {
  session = session (connected 0 [] 0) buf pos;
  argv = [];
  argv_len = 0;
  argv_len_sum = 0;
  repl_ack_time = 0;
}

get-IsVisible : IsVisible (codes "get")
get-IsVisible =
    ((omega arith, omega arith), ((omega arith, omega arith), ((omega arith, omega arith), tt)))

process_inline_buffer-IsRead_example :
    Returns
      (process_inline_buffer 5 (inline_client (codes "get a" ++ (13 ∷ 10 ∷ [])) 0))
      (IsRead (inline_client (codes "get a" ++ (13 ∷ 10 ∷ [])) 0) (codes "get" ∷ codes "a" ∷ []))
process_inline_buffer-IsRead_example =
    process_inline_buffer-IsRead 5 (inline_client (codes "get a" ++ (13 ∷ 10 ∷ [])) 0) []
      (codes "get") (codes "a" ∷ [])
      ((get-IsVisible, omega arith), ((((omega arith, omega arith), tt), omega arith), tt)) refl
      refl

process_inline_buffer-faults_example :
    process_inline_buffer 5 (inline_client (codes "get a") 0) ≡ fault Fault.out_of_range
unfolding index_byte
process_inline_buffer-faults_example =
    process_inline_buffer-faults 5 (inline_client (codes "get a") 0) (omega arith)
      (inl (refl, omega arith))
