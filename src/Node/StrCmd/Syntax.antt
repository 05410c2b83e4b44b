-- ===== src/Node/StrCmd/Syntax.antt =====
-- node/strcmd.go: SET with an option that it does not know.
use go_mock_redis.Base.{
  ◌-◌, ◌≡◌, refl, true, false, ◌++◌, arith, Bytes, codes, crlf, ltb, ◌==◌, none, ok, ◌>>=◌,
}
use go_mock_redis.Db.Dict.{at}
use go_mock_redis.Db.Object.{RedisObj, encoding_object}
use go_mock_redis.Node.Client.{shared_syntax_err}
use go_mock_redis.Node.Client.Replies.{IsText, IsWritable, sent, add_reply-sent}
use go_mock_redis.Node.Options.{
  choose, bad, command_set, seconds, parse_from, parse_extended_string_arguments_or_reply,
}
use go_mock_redis.Node.StrCmd.{StrCmd, set, set_generic_command}
use go_mock_redis.Node.StrCmd.Reads.{Names, key_at-Names}

shared_syntax_err-IsText : IsText shared_syntax_err (codes "-ERR syntax error" ++ crlf)
unfolding shared_syntax_err encoding_object
shared_syntax_err-IsText = record { encoded = refl; text = refl }

module _ (cmd : StrCmd) (key opt : Bytes) (val o : RedisObj) (names : Names cmd.c key)
    (four : cmd.c.argc ≡ 4) (value : at cmd.c.argv 2 ≡ ok val) (option : at cmd.c.argv 3 ≡ ok o)
    (text : IsText o opt) (w : IsWritable cmd.c)
    (wrong : choose 0 command_set opt false ≡ bad) where
  abbrev line : Bytes
  line = codes "-ERR syntax error" ++ crlf

  parse_wrong :
      parse_extended_string_arguments_or_reply cmd.c 0 command_set
      ≡ ok
          (sent cmd.c line, record { ret_flags = 0; expire = none; unit = seconds; ok_flag = true })
  unfolding parse_extended_string_arguments_or_reply parse_from
  parse_wrong =
      let one : cmd.c.argc - 3 ≡ 1 = omega arith in
      let within : ltb 3 cmd.c.argc ≡ true = ground arith in
      let last : (3 == cmd.c.argc - 1) ≡ true = ground arith in
      rw
        (
          one, parse_extended_string_arguments_or_reply, within, parse_from, option, ◌>>=◌,
          text.text, last, wrong,
        )
        (rw (add_reply-sent cmd.c w shared_syntax_err line shared_syntax_err-IsText) refl)

  -- SET with one option behind the value, a text that the parser refuses, by a client that may be
  -- written to, sends the syntax error and then runs as if the option were not there.
  set-wrong_option :
      set cmd ≡ set_generic_command (record cmd { c = sent cmd.c line }) 0 key val none seconds
  unfolding set
  set-wrong_option =
      let names' : Names (sent cmd.c line) key = record {
        argument = names.argument;
        is_there = names.is_there;
        text = names.text;
      } in
      rw (parse_wrong, ◌>>=◌, key_at-Names (sent cmd.c line) key names', value) refl
