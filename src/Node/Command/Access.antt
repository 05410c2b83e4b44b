-- ===== src/Node/Command/Access.antt =====
-- node/acl.go: which commands a selector allows.
pub mod Restricted
use go_mock_redis.Base.{
  ℕ, ◌+◌, ◌*◌, ◌/◌, ◌%◌, ◌<◌, ◌≤◌, ◌≡◌, refl, Bool, true, false, not, ◌&&◌, List, [], ◌∷◌, arith,
  Bytes, ltb, leb, if◌then◌else◌, Option, none, some, Run, ok, fault, Fault, ◌>>=◌, Bool-cases, inl,
  inr, ◌⊎◌,
}
use go_mock_redis.Base.Runes.{equal_fold_runes}
use go_mock_redis.Base.Words.{has_bit}
use go_mock_redis.Db.Dict.{at}
use go_mock_redis.Db.Object.{RedisObj}
use go_mock_redis.Node.Client.{as_string}
use go_mock_redis.Node.Command.{Command, has, no_auth}

abbrev pub user_command_bits_count : ℕ
user_command_bits_count = 1024

pub data AclCheckAllPerm : Type 0 where
  acl_ok acl_denied_cmd acl_denied_key acl_denied_auth acl_denied_channel : AclCheckAllPerm

-- The bits of `SelectorFlag`.
pub data SelectorFlag : Type 0 where
  all_keys all_commands all_channels : SelectorFlag

unfoldable pub selector_bit : SelectorFlag → ℕ
selector_bit all_keys = 0
selector_bit all_commands = 1
selector_bit all_channels = 2

-- `aclSelector`, as far as `checkCmd` reads it. The words of the bit map are 16 uint64; a nil slice of
-- first arguments is `none`.
pub record Selector : Type 0 where
  pub flags : ℕ
  pub allowed_commands : List ℕ
  pub allowed_first_args : Option (List (Option (List Bytes)))

-- `ACLGetCommandBitCoordinates`: the word, and the position of the bit instead of its mask.
unfoldable pub acl_get_command_bit_coordinates : ℕ → Option (ℕ × ℕ)
acl_get_command_bit_coordinates id =
    if leb user_command_bits_count id then none else some (id / 64, id % 64)

unfoldable pub cmd_bit : Selector → ℕ → Run Bool
unfolding acl_get_command_bit_coordinates at
cmd_bit s id = elim (acl_get_command_bit_coordinates id) [
  | none ↦ ok false
  | some (word, bit) ↦ do w ← at s.allowed_commands word; ok (has_bit w bit)
]

-- `fold` is that of `strings.EqualFold`.
module _ (fold : ℕ → ℕ) where
  -- The loop over the allowed first arguments: it is left at the first one that differs from the
  -- command's, and runs out of the list if none does and no empty text ends it.
  unfoldable pub check_first_args : List Bytes → List RedisObj → ℕ → Run AclCheckAllPerm
  unfolding at as_string equal_fold_runes
  check_first_args [] argv idx = fault Fault.out_of_range
  check_first_args ([] ∷ more) argv idx = ok acl_denied_cmd
  check_first_args ((a ∷ name) ∷ more) argv idx =
      let rest = check_first_args more argv idx in
      do
        o ← at argv idx
        s ← as_string o.value
        if equal_fold_runes fold s (a ∷ name) then rest else ok acl_ok

  unfoldable pub check_cmd : Selector → Command → List RedisObj → ℕ → Run AclCheckAllPerm
  unfolding selector_bit has cmd_bit check_first_args at
  check_cmd s cmd argv argc =
      if not (has_bit s.flags (selector_bit all_commands)) && not (has cmd.flags no_auth)
      then (do
        allowed ← cmd_bit s cmd.id
        if allowed
            then ok acl_ok
            else (if ltb argc 2 then ok acl_denied_cmd else elim s.allowed_first_args [
              | none ↦ ok acl_denied_cmd
              | some table ↦ do
                entry ← at table cmd.id
                elim entry [
                  | none ↦ ok acl_denied_cmd
                  | some args ↦ check_first_args args argv (if cmd.has_parent then 2 else 1)
                ]
            ]))
      else ok acl_ok

-- The coordinates of a command's bit exist exactly for the ids below 1024; the word is below 16,
-- the bit below 64, and they give the id back.
acl_get_command_bit_coordinates-bounds :
    (id : ℕ)
    → ((user_command_bits_count ≤ id) × (acl_get_command_bit_coordinates id ≡ none))
      ⊎ ((word : ℕ) × (bit : ℕ) × (acl_get_command_bit_coordinates id ≡ some (word, bit))
          × (word < 16)
          × (bit < 64)
          × (word * 64 + bit ≡ id))
unfolding acl_get_command_bit_coordinates
acl_get_command_bit_coordinates-bounds id = elim (Bool-cases (leb user_command_bits_count id)) [
  | inl t ↦ inl (ground arith, rw t refl)
  | inr f ↦
      let small : id < user_command_bits_count = ground arith in
      inr (id / 64, id % 64, rw f refl, omega arith, omega arith, omega arith)
]
