-- ===== src/Node/Options/Rounds.antt =====
-- node/strcmd.go: the rounds that the loop of the option parser needs.
use go_mock_redis.Base.{
  ℕ, zero, suc, ◌+◌, ◌-◌, ◌≤◌, ◌≡◌, refl, sym, true, false, not, arith, ltb, ◌==◌, Run, ok, fault,
  Fault, ◌>>=◌, Bool-cases, Option-cases, inl, inr, ◌⊎◌,
}
use go_mock_redis.Db.Dict.{at}
use go_mock_redis.Node.Client.{Client}
use go_mock_redis.Node.Options.{CommandType, Parsed, choose, text_of, parse_from, first_option}
use go_mock_redis.Node.Options.Parser.{Choice-cases}

Run-cases {ℓ} : {A : Type ℓ} (r : Run A) → ((a : A) × (r ≡ ok a)) ⊎ ((e : Fault) × (r ≡ fault e))
Run-cases (ok a) = inl (a, refl)
Run-cases (fault e) = inr (e, refl)

-- Behind the last argument the loop ends at once.
parse_from-end :
    (rounds j : ℕ) (c : Client) (type : CommandType) (p : Parsed)
    → c.argc ≤ j
    → parse_from rounds j c type p ≡ ok (c, record p { ok_flag = true })
unfolding parse_from
parse_from-end zero j c type p past = refl
parse_from-end (suc rounds) j c type p past =
    let last : ltb j c.argc ≡ false = ground arith in rw (last, parse_from) refl

-- The loop gives the same result with all rounds that reach the last argument.
parse_from-rounds :
    (a b j : ℕ) (c : Client) (type : CommandType) (p : Parsed)
    → c.argc ≤ j + a
    → c.argc ≤ j + b
    → parse_from a j c type p ≡ parse_from b j c type p
unfolding parse_from
parse_from-rounds zero b j c type p h k = sym (parse_from-end b j c type p (omega arith))
parse_from-rounds (suc a) zero j c type p h k = parse_from-end (suc a) j c type p (omega arith)
parse_from-rounds (suc a) (suc b) j c type p h k = elim (Bool-cases (ltb j c.argc)) [
  | inr f ↦ rw (f, parse_from) refl
  | inl t ↦ elim (Run-cases (at c.argv j)) [
    | inr (e, r) ↦ rw (t, parse_from, r, ◌>>=◌) refl
    | inl (arg, r) ↦ elim (Option-cases (text_of arg.value)) [
      | inl u ↦ rw (t, parse_from, r, ◌>>=◌, u) refl
      | inr (opt, u) ↦ elim (Choice-cases (choose p.ret_flags type opt (not (j == c.argc - 1)))) [
        | inr (inr w) ↦ rw (t, parse_from, r, ◌>>=◌, u, w) refl
        | inl (flag, w) ↦
            rw (t, parse_from, r, ◌>>=◌, u, w)
              (parse_from-rounds a b (j + 1) c type _ (omega arith) (omega arith))
        | inr (inl (flag, unit, w)) ↦ elim (Run-cases (at c.argv (j + 1))) [
          | inr (e, r') ↦ rw (t, parse_from, r, ◌>>=◌, u, w, r') refl
          | inl (next, r') ↦
              rw (t, parse_from, r, ◌>>=◌, u, w, r')
                (parse_from-rounds a b (j + 2) c type _ (omega arith) (omega arith))
        ]
      ]
    ]
  ]
]

-- The option parser gives its loop enough rounds: with more rounds the loop comes to the same
-- result.
parse-rounds :
    (c : Client) (type : CommandType) (p : Parsed) (more : ℕ)
    → parse_from (c.argc - first_option type + more) (first_option type) c type p
      ≡ parse_from (c.argc - first_option type) (first_option type) c type p
parse-rounds c type p more = parse_from-rounds _ _ _ c type p (omega arith) (omega arith)
