-- ===== src/Node/Options/Exclusive.antt =====
-- node/strcmd.go: which flags the option parser can return together.
use go_mock_redis.Base.{
  ℕ, ◌+◌, ◌≤◌, ◌≡◌, refl, Bool, true, false, not, ◌&&◌, List, [], ◌∷◌, arith, Bytes, codes, ◌==◌,
  if◌then◌else◌, Bool-cases, inl, inr,
}
use go_mock_redis.Base.Tests.{bytes_eq}
use Prim.Native.String.{String}
use go_mock_redis.Base.Text.{to_upper, equal_fold}
use go_mock_redis.Node.Options.{
  seconds, milliseconds, is_set, SetFlag, nx, xx, ex, px, keep_ttl, get, exat, pxat, persist, bit,
  has, add_flag, lacks, choose, Choice, plain, timed, bad, CommandType,
}

abbrev pub one : Bool → ℕ
one true = 1
one false = 0

-- How many of the flags that rule on the expire time are there.
unfoldable pub ttl_flags : ℕ → ℕ
ttl_flags w =
    one (has w ex)
    + one (has w px)
    + one (has w keep_ttl)
    + one (has w exat)
    + one (has w pxat)
    + one (has w persist)

-- NX and XX are not together, and at most one flag rules on the expire time.
pub record IsExclusive (w : ℕ) : Type 0 where
  pub one_condition : one (has w nx) + one (has w xx) ≤ 1
  pub one_ttl : ttl_flags w ≤ 1

-- The bits of a word after one of its bits has been set.
has-add_flag :
    (w : ℕ) (f g : SetFlag) → has (add_flag w f) g ≡ (if bit f == bit g then true else has w g)
unfolding has add_flag bit
has-add_flag w nx nx = ground arith
has-add_flag w _ _ = ground arith

-- The flags that rule a flag out.
unfoldable pub rivals : SetFlag → List SetFlag
rivals nx = xx ∷ []
rivals xx = nx ∷ []
rivals get = []
rivals keep_ttl = persist ∷ ex ∷ exat ∷ px ∷ pxat ∷ []
rivals persist = ex ∷ exat ∷ px ∷ pxat ∷ keep_ttl ∷ []
rivals ex = keep_ttl ∷ persist ∷ exat ∷ pxat ∷ px ∷ []
rivals px = keep_ttl ∷ persist ∷ ex ∷ exat ∷ pxat ∷ []
rivals exat = keep_ttl ∷ persist ∷ ex ∷ pxat ∷ px ∷ []
rivals pxat = keep_ttl ∷ persist ∷ ex ∷ exat ∷ px ∷ []

abbrev pub permitted : ℕ → Choice → Bool
permitted w (plain f) = lacks w (rivals f)
permitted w (timed f u) = lacks w (rivals f)
permitted w bad = true

-- The next argument is taken only where there is one.
abbrev pub next_is_there : Bool → Choice → Bool
next_is_there has_next (timed f u) = has_next
next_is_there has_next _ = true

pub record Permitted (w : ℕ) (has_next : Bool) (x : Choice) : Type 0 where
  pub free : permitted w x ≡ true
  pub next : next_is_there has_next x ≡ true

module _ (w : ℕ) (has_next : Bool) where
  -- A choice that its own flags permit, or the next one.
  permitted-if :
      (b d : Bool) (x y : Choice)
      → (d ≡ true → next_is_there has_next x ≡ true)
      → Permitted w has_next y
      → Permitted w has_next (if (b && permitted w x) && d then x else y)
  permitted-if false d x y next rest = rest
  permitted-if true d x y next rest = elim (Bool-cases (permitted w x)) [
    | inr f ↦ rw f rest
    | inl t ↦ elim (Bool-cases d) [
      | inr f ↦ rw (t, f) rest
      | inl u ↦ rw (t, u) (record { free = t; next = next u })
    ]
  ]

  choose_get :
      (b : Bool) (y : Choice)
      → Permitted w has_next y
      → Permitted w has_next (if b then plain get else y)
  unfolding lacks rivals
  choose_get true y rest = record { free = refl; next = refl }
  choose_get false y rest = rest

  -- The parser sets a flag only if none of its rivals is there.
  pub choose-Permitted :
      (type : CommandType) (opt : Bytes) → Permitted w has_next (choose w type opt has_next)
  unfolding choose rivals
  choose-Permitted type opt =
      permitted-if (upper "NX") set (plain nx) _ (λ h. refl)
        (permitted-if (upper "XX") set (plain xx) _ (λ h. refl)
          (choose_get (upper "GET" && set) _ (
            permitted-if (folded "KEEPTTL") set (plain keep_ttl) _ (λ h. refl)
              (permitted-if (folded "PERSIST") (not set) (plain persist) _ (λ h. refl)
                (permitted-if (upper "EX") has_next (timed ex seconds) _ (λ h. h)
                  (permitted-if (upper "PX") has_next (timed px milliseconds) _ (λ h. h)
                    (permitted-if (upper "EXAT") has_next (timed exat seconds) _ (λ h. h)
                      (permitted-if (upper "PXAT") has_next (timed pxat milliseconds) bad (λ h. h)
                        (record { free = refl; next = refl })))))))))
    where
      set : Bool
      set = is_set type

      upper : String → Bool
      upper s = bytes_eq (to_upper opt) (codes s)

      folded : String → Bool
      folded s = equal_fold opt (codes s)

lacks_cons :
    (w : ℕ) (f : SetFlag) (fs : List SetFlag)
    → lacks w (f ∷ fs) ≡ true
    → (has w f ≡ false) × (lacks w fs ≡ true)
unfolding lacks
lacks_cons w f fs free = ground arith

lacks_five :
    (w : ℕ) (a b c d e : SetFlag)
    → lacks w (a ∷ b ∷ c ∷ d ∷ e ∷ []) ≡ true
    → (has w a ≡ false)
      × (has w b ≡ false)
      × (has w c ≡ false)
      × (has w d ≡ false)
      × (has w e ≡ false)
lacks_five w a b c d e free =
    let (h1, r1) = lacks_cons w a _ free in
    let (h2, r2) = lacks_cons w b _ r1 in
    let (h3, r3) = lacks_cons w c _ r2 in
    let (h4, r4) = lacks_cons w d _ r3 in let (h5, r5) = lacks_cons w e _ r4 in (h1, h2, h3, h4, h5)

-- At most one of the flags on the expire time, after a flag has been set.
ttl_flags-add_flag :
    (w : ℕ) (f : SetFlag)
    → lacks w (rivals f) ≡ true
    → ttl_flags w ≤ 1
    → ttl_flags (add_flag w f) ≤ 1
unfolding ttl_flags bit rivals
ttl_flags-add_flag w nx free e = simp has-add_flag e
ttl_flags-add_flag w xx free e = simp has-add_flag e
ttl_flags-add_flag w get free e = simp has-add_flag e
ttl_flags-add_flag w ex free e =
    let (a, b, c, d, f) = lacks_five w _ _ _ _ _ free in
    simp (has-add_flag, a, b, c, d, f) (ground arith)
ttl_flags-add_flag w px free e =
    let (a, b, c, d, f) = lacks_five w _ _ _ _ _ free in
    simp (has-add_flag, a, b, c, d, f) (ground arith)
ttl_flags-add_flag w keep_ttl free e =
    let (a, b, c, d, f) = lacks_five w _ _ _ _ _ free in
    simp (has-add_flag, a, b, c, d, f) (ground arith)
ttl_flags-add_flag w exat free e =
    let (a, b, c, d, f) = lacks_five w _ _ _ _ _ free in
    simp (has-add_flag, a, b, c, d, f) (ground arith)
ttl_flags-add_flag w pxat free e =
    let (a, b, c, d, f) = lacks_five w _ _ _ _ _ free in
    simp (has-add_flag, a, b, c, d, f) (ground arith)
ttl_flags-add_flag w persist free e =
    let (a, b, c, d, f) = lacks_five w _ _ _ _ _ free in
    simp (has-add_flag, a, b, c, d, f) (ground arith)

conditions-add_flag :
    (w : ℕ) (f : SetFlag)
    → lacks w (rivals f) ≡ true
    → one (has w nx) + one (has w xx) ≤ 1
    → one (has (add_flag w f) nx) + one (has (add_flag w f) xx) ≤ 1
unfolding bit rivals
conditions-add_flag w nx free e =
    let (a, r) = lacks_cons w xx [] free in simp (has-add_flag, a) (ground arith)
conditions-add_flag w xx free e =
    let (a, r) = lacks_cons w nx [] free in simp (has-add_flag, a) (ground arith)
conditions-add_flag w _ free e = simp has-add_flag e

pub add_flag-IsExclusive :
    (w : ℕ) (f : SetFlag) → lacks w (rivals f) ≡ true → IsExclusive w → IsExclusive (add_flag w f)
add_flag-IsExclusive w f free e = record {
  one_condition = conditions-add_flag w f free e.one_condition;
  one_ttl = ttl_flags-add_flag w f free e.one_ttl;
}
