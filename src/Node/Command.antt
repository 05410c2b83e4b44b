-- ===== src/Node/Command.antt =====
-- node/command.go, node/acl.go: commands and their flags.
pub mod Access
use go_mock_redis.Base.{ℕ, Bool, Bytes, List, ltb}
use go_mock_redis.Base.Words.{has_bit}

-- The named bits of `CommandFlags`; bits 7 and 26 have no name.
pub data CommandFlag : Type 0 where
  write read_only deny_oom module_command admin pub_sub no_script : CommandFlag
  blocking loading stale skip_monitor skip_slow_log asking fast no_auth : CommandFlag
  may_replicate sentinel only_sentinel no_mandatory_keys protected : CommandFlag
  module_get_keys module_no_cluster no_async_loading no_multi movable_keys : CommandFlag
  allow_busy module_get_channels touches_arbitrary_keys : CommandFlag

unfoldable pub bit : CommandFlag → ℕ
bit write = 0
bit read_only = 1
bit deny_oom = 2
bit module_command = 3
bit admin = 4
bit pub_sub = 5
bit no_script = 6
bit blocking = 8
bit loading = 9
bit stale = 10
bit skip_monitor = 11
bit skip_slow_log = 12
bit asking = 13
bit fast = 14
bit no_auth = 15
bit may_replicate = 16
bit sentinel = 17
bit only_sentinel = 18
bit no_mandatory_keys = 19
bit protected = 20
bit module_get_keys = 21
bit module_no_cluster = 22
bit no_async_loading = 23
bit no_multi = 24
bit movable_keys = 25
bit allow_busy = 27
bit module_get_channels = 28
bit touches_arbitrary_keys = 29

unfoldable pub has : ℕ → CommandFlag → Bool
unfolding bit
has flags f = has_bit flags (bit f)

-- An int: the number, or below zero.
pub data Arity : Type 0 where
  exactly at_least : ℕ → Arity

-- What the modelled code asks of a `RedisCommand`. An arity below zero, `at_least n`, is -n;
-- `is_container` says that the list of subcommands is not nil, and `has_parent` that the parent is not.
pub record Command : Type 0 where
  pub full_name : Bytes
  pub id : ℕ
  pub arity : Arity
  pub flags : ℕ
  pub is_container : Bool
  pub has_parent : Bool
  pub rejected_calls : ℕ
