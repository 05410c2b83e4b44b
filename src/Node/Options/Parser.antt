-- ===== src/Node/Options/Parser.antt =====
-- node/strcmd.go: the whole of the option parser.
use go_mock_redis.Base.{
  ℕ, zero, suc, ◌+◌, ◌-◌, ◌≤◌, ◌<◌, ◌≡◌, refl, true, false, not, List, [], ◌∷◌, ◌++◌, crlf, arith,
  codes, ltb, ◌==◌, some, Returns, length, get_or, ◌⊎◌, ok, ◌>>=◌, Bool-cases, Option-cases, inl,
  inr,
}
use mathlib.Core.Path.{subst}
use go_mock_redis.Db.Dict.{at}
use go_mock_redis.Db.Dict.Buckets.{at-get_or}
use go_mock_redis.Node.Client.{Client, add_reply, shared_syntax_err, prepare_client_to_write}
use go_mock_redis.Node.Options.{
  TimeUnit, SetFlag, has, add_flag, lacks, choose, Choice, plain, timed, bad, CommandType, Parsed,
  parse_from, text_of, unit_after, parse_extended_string_arguments_or_reply,
}
use go_mock_redis.Node.Options.Exclusive.{
  IsExclusive, ttl_flags, rivals, permitted, next_is_there, choose-Permitted, add_flag-IsExclusive,
}

-- A reply of the parser reaches the connection of a client that has one.
add_reply_returns :
    (c : Client)
    → c.connected ≡ true
    → Returns (add_reply c shared_syntax_err) (λ c'. c'.argv ≡ c.argv)
unfolding add_reply shared_syntax_err
add_reply_returns c live = elim (Bool-cases (prepare_client_to_write c)) [
  | inr f ↦ (c, rw (add_reply, f), refl)
  | inl t ↦ (
    record c { written = c.written ++ (codes "-ERR syntax error" ++ crlf) },
    rw (add_reply, t, live),
    refl,
  )
]

pub Choice-cases :
    (x : Choice)
    → ((f : SetFlag) × (x ≡ plain f))
      ⊎ ((f : SetFlag) × (u : TimeUnit) × (x ≡ timed f u))
      ⊎ (x ≡ bad)
Choice-cases (plain f) = inl (f, refl)
Choice-cases (timed f u) = inr (inl (f, u, refl))
Choice-cases bad = inr (inr refl)

not_below_zero : (i : ℕ) → i < 0 → ⊥
not_below_zero i h = omega arith

at_returns {ℓ} : {A : Type ℓ} (xs : List A) (i : ℕ) → i < length xs → (a : A) × (at xs i ≡ ok a)
at_returns [] i h = elim (not_below_zero i h) [ ]
at_returns (x ∷ xs) i h = (get_or (x ∷ xs) i x, at-get_or (x ∷ xs) i x h)

more_below : (j n : ℕ) → j < n → not (j == n - 1) ≡ true → j + 1 < n
more_below j n h more = ground arith

parse_from-IsExclusive :
    (rounds j : ℕ) (c : Client) (type : CommandType) (p : Parsed)
    → c.argc ≤ length c.argv
    → c.connected ≡ true
    → IsExclusive p.ret_flags
    → Returns (parse_from rounds j c type p) (λ r. IsExclusive r.1.ret_flags)
unfolding parse_from
parse_from-IsExclusive zero j c type p held live e = (_, refl, e)
parse_from-IsExclusive (suc rounds) j c type p held live e = elim (Bool-cases (ltb j c.argc)) [
  | inr f ↦ ((c, record p { ok_flag = true }), rw (parse_from, f), e)
  | inl t ↦
      let below : j < c.argc = ground arith in
      let (arg, run) = at_returns c.argv j (omega arith) in
      let (c', replied, same) = add_reply_returns c live in
      elim (Option-cases (text_of arg.value)) [
        | inl f ↦
            ((c', record p { ok_flag = false }), rw (parse_from, t, run, ◌>>=◌, f, replied), e)
        | inr (opt, f) ↦
            let permit = choose-Permitted p.ret_flags (not (j == c.argc - 1)) type opt in
            elim (Choice-cases (choose p.ret_flags type opt (not (j == c.argc - 1)))) [
              | inl (g, k) ↦
                  let free : lacks p.ret_flags (rivals g) ≡ true =
                    subst (λ x. permitted p.ret_flags x ≡ true) k permit.free in
                  let (r, after, h) =
                    parse_from-IsExclusive rounds (j + 1) c type
                      (record p { ret_flags = add_flag p.ret_flags g; ok_flag = true }) held live
                      (add_flag-IsExclusive p.ret_flags g free e) in
                  (r, rw (parse_from, t, run, ◌>>=◌, f, k) after, h)
              | inr (inl (g, u, k)) ↦
                  let free : lacks p.ret_flags (rivals g) ≡ true =
                    subst (λ x. permitted p.ret_flags x ≡ true) k permit.free in
                  let more : not (j == c.argc - 1) ≡ true =
                    subst (λ x. next_is_there (not (j == c.argc - 1)) x ≡ true) k permit.next in
                  let (next, run') =
                    at_returns c.argv (j + 1)
                      (let small = more_below j c.argc below more in omega arith) in
                  let (r, after, h) =
                    parse_from-IsExclusive rounds (j + 2) c type
                      (record p {
                        ret_flags = add_flag p.ret_flags g;
                        expire = some next;
                        unit = unit_after u p.unit;
                        ok_flag = true;
                      })
                      held live (add_flag-IsExclusive p.ret_flags g free e) in
                  (r, rw (parse_from, t, run, ◌>>=◌, f, k, run') after, h)
              | inr (inr k) ↦ (
                (c', record p { ok_flag = true }),
                rw (parse_from, t, run, ◌>>=◌, f, k, replied),
                e,
              )
            ]
      ]
]

-- The parser of the options of SET and GET, called without flags for a client that has a
-- connection and all its arguments, does not fail, whatever the arguments are, and returns flags
-- in which NX and XX are not both set and at most one of EX, PX, EXAT, PXAT, KEEPTTL and PERSIST
-- is set.
pub parse-IsExclusive :
    (c : Client) (type : CommandType)
    → c.argc ≤ length c.argv
    → c.connected ≡ true
    → Returns (parse_extended_string_arguments_or_reply c 0 type) (λ r. IsExclusive r.1.ret_flags)
unfolding parse_extended_string_arguments_or_reply has ttl_flags
parse-IsExclusive c type held live =
    parse_from-IsExclusive _ _ c type _ held live
      (record { one_condition = omega arith; one_ttl = omega arith })
