-- ===== src/Node/Command/Access/Restricted.antt =====
-- node/acl.go, `checkCmd`: what the allowed first arguments of a command come to.
use go_mock_redis.Base.{
  ℕ, zero, suc, ◌<◌, ◌≤◌, ◌≡◌, refl, ◌∙◌, Bool, true, false, ◌&&◌, List, [], ◌∷◌, ◌++◌, map, arith,
  Bytes, ltb, if◌then◌else◌, bytes_eq_sound, length, get_elem?, Option, some, ok, ◌>>=◌, Bool-cases,
  inl, inr,
}
use go_mock_redis.Base.Runes.{runes_from, equal_fold_runes}
use go_mock_redis.Base.Words.{has_bit}
use go_mock_redis.Db.Dict.{at}
use go_mock_redis.Db.Object.{RedisObj}
use go_mock_redis.Node.Client.{as_string}
use go_mock_redis.Node.Command.{Command, has, no_auth}
use go_mock_redis.Node.Command.Access.{
  acl_ok, acl_denied_cmd, all_commands, selector_bit, Selector, cmd_bit, check_first_args,
  check_cmd,
}

-- The command bit that decides is not set, and the command's first arguments are restricted.
pub record IsRestricted (s : Selector) (cmd : Command) (argc : ℕ) (args : List Bytes) : Type 0 where
  pub not_all : has_bit s.flags (selector_bit all_commands) ≡ false
  pub needs_auth : has cmd.flags no_auth ≡ false
  pub not_allowed : cmd_bit s cmd.id ≡ ok false
  pub has_argument : 2 ≤ argc
  pub table : List (Option (List Bytes))
  pub restricts : s.allowed_first_args ≡ some table
  pub entry : at table cmd.id ≡ ok (some args)

module _ (fold : ℕ → ℕ) where
  -- Two texts that fold to a third one fold to each other.
  equal_fold_runes-two :
      (t x y : Bytes)
      → equal_fold_runes fold t x ≡ true
      → equal_fold_runes fold t y ≡ true
      → equal_fold_runes fold x y ≡ true
  unfolding equal_fold_runes
  equal_fold_runes-two t x y p q =
      let at_x = bytes_eq_sound (map fold (runes_from 0 t)) (map fold (runes_from 0 x)) p in
      rw (← at_x) q

  -- Whether a text is the same as each of the names but for the case.
  unfoldable pub is_each : Bytes → List Bytes → Bool
  is_each text [] = true
  is_each text (x ∷ names) = equal_fold_runes fold text x && is_each text names

  abbrev pub AreFilled : List Bytes → Type 0
  AreFilled [] = Unit {0}
  AreFilled (x ∷ names) = (0 < length x) × AreFilled names

  is_each-one :
      (text : Bytes) (names : List Bytes) (i : ℕ) (x : Bytes)
      → is_each text names ≡ true
      → get_elem? names i ≡ some x
      → equal_fold_runes fold text x ≡ true
  unfolding is_each
  is_each-one text [] i x h e = cc
  is_each-one text (y ∷ names) zero x h e = ground arith
  is_each-one text (y ∷ names) (suc i) x h e = is_each-one text names i x (ground arith) e

  check_first_args-each :
      (names more : List Bytes) (argv : List RedisObj) (idx : ℕ) (o : RedisObj) (text : Bytes)
      → AreFilled names
      → at argv idx ≡ ok o
      → as_string o.value ≡ ok text
      → check_first_args fold (names ++ ([] ∷ more)) argv idx
        ≡ ok (if is_each text names then acl_denied_cmd else acl_ok)
  unfolding check_first_args is_each
  check_first_args-each [] more argv idx o text h there is_text = refl
  check_first_args-each ([] ∷ names) more argv idx o text h there is_text =
      absurd (omega (arith, h.0))
  check_first_args-each ((a ∷ x) ∷ names) more argv idx o text h there is_text =
      elim (Bool-cases (equal_fold_runes fold text (a ∷ x))) [
        | inl same ↦
            rw (there, ◌>>=◌, is_text, same)
              (check_first_args-each names more argv idx o text h.1 there is_text)
        | inr other ↦ rw (there, ◌>>=◌, is_text, other) refl
      ]

  module _ (s : Selector) (cmd : Command) (argv : List RedisObj) (argc : ℕ)
      (names more : List Bytes) (o : RedisObj) (text : Bytes)
      (r : IsRestricted s cmd argc (names ++ ([] ∷ more))) (filled : AreFilled names)
      (there : at argv (if cmd.has_parent then 2 else 1) ≡ ok o)
      (is_text : as_string o.value ≡ ok text) where
    check_cmd-each :
        check_cmd fold s cmd argv argc ≡ ok (if is_each text names then acl_denied_cmd else acl_ok)
    unfolding check_cmd
    check_cmd-each =
        let few : ltb argc 2 ≡ false = (let h = r.has_argument in ground arith) in
        rw (r.not_all, check_cmd, r.needs_auth, r.not_allowed, ◌>>=◌, few, r.restricts, r.entry)
          (check_first_args-each names more argv (if cmd.has_parent then 2 else 1) o text filled
            there is_text)

    -- For a selector that does not allow all commands and not this one, and a command that needs
    -- authentication, with at least two arguments, a text for the argument that is compared, and a
    -- list of allowed first arguments, which are not empty, before the empty text that ends it:
    -- `checkCmd` denies the command if the argument is the same, but for the case, as each of the
    -- allowed ones, and allows it otherwise; so it allows the command with every argument where
    -- two of the allowed ones differ in more than the case. The tables of Go that say which
    -- characters differ in the case only are arbitrary.
    pub check_cmd-restricted :
        (check_cmd fold s cmd argv argc
          ≡ ok (if is_each text names then acl_denied_cmd else acl_ok))
        × ((i j : ℕ) (x y : Bytes)
            → get_elem? names i ≡ some x
            → get_elem? names j ≡ some y
            → equal_fold_runes fold x y ≡ false
            → check_cmd fold s cmd argv argc ≡ ok acl_ok)
    check_cmd-restricted = (
      check_cmd-each,
      λ i j x y e f differ. elim (Bool-cases (is_each text names)) [
        | inl all ↦
            (let same =
                equal_fold_runes-two text x y (is_each-one text names i x all e)
                  (is_each-one text names j y all f) in
              absurd (cc))
        | inr some_other ↦ check_cmd-each ∙ rw some_other refl
      ],
    )
