-- ===== src/Node/Flags.antt =====
-- node/client.go: the flags of a client.
use go_mock_redis.Base.{ℕ, Bool}
use go_mock_redis.Base.Words.{has_bit}

-- The constants of `ClientFlags` that name one bit, in the order of the bits.
pub data ClientFlag : Type 0 where
  slave master monitor multi blocked dirty_cas close_after_reply unblocked : ClientFlag
  script asking close_asap unix_socket dirty_exec master_force_reply force_aof : ClientFlag
  force_replica pre_psync read_only pub_sub prevent_aof_prop prevent_repl_prop : ClientFlag
  pending_write reply_off reply_skip_next reply_skip lua_debug lua_debug_sync module_client :
      ClientFlag
  protected executing_command pending_command tracking tracking_bcast tracking_opt_in : ClientFlag
  tracking_opt_out tracking_caching tracking_no_loop in_to_table protocol_error : ClientFlag
  close_after_command deny_blocking repl_rdb_only no_evict allow_oom no_touch pushing : ClientFlag
  module_auth_has_result module_prevent_aof_prop module_prevent_repl_prop : ClientFlag

unfoldable pub bit : ClientFlag → ℕ
bit slave = 0
bit master = 1
bit monitor = 2
bit multi = 3
bit blocked = 4
bit dirty_cas = 5
bit close_after_reply = 6
bit unblocked = 7
bit script = 8
bit asking = 9
bit close_asap = 10
bit unix_socket = 11
bit dirty_exec = 12
bit master_force_reply = 13
bit force_aof = 14
bit force_replica = 15
bit pre_psync = 16
bit read_only = 17
bit pub_sub = 18
bit prevent_aof_prop = 19
bit prevent_repl_prop = 20
bit pending_write = 21
bit reply_off = 22
bit reply_skip_next = 23
bit reply_skip = 24
bit lua_debug = 25
bit lua_debug_sync = 26
bit module_client = 27
bit protected = 28
bit executing_command = 29
bit pending_command = 30
bit tracking = 31
bit tracking_bcast = 32
bit tracking_opt_in = 33
bit tracking_opt_out = 34
bit tracking_caching = 35
bit tracking_no_loop = 36
bit in_to_table = 37
bit protocol_error = 38
bit close_after_command = 39
bit deny_blocking = 40
bit repl_rdb_only = 41
bit no_evict = 42
bit allow_oom = 43
bit no_touch = 44
bit pushing = 45
bit module_auth_has_result = 46
bit module_prevent_aof_prop = 47
bit module_prevent_repl_prop = 48

-- `c.flags & F != 0`
unfoldable pub has : ℕ → ClientFlag → Bool
unfolding bit
has flags f = has_bit flags (bit f)
