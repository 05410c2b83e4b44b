-- ===== src/Node/Process/Inline/Fields.antt =====
-- `strings.Fields`, which `processInlineBuffer` of node/client.go splits a line with, on words with
-- one space between each two.
use go_mock_redis.Base.{
  ℕ, zero, ◌<◌, ◌≡◌, refl, sym, ap, ◌∙◌, List, [], ◌∷◌, ◌++◌, append_assoc, append-nil, arith,
  Bytes, length,
}
use go_mock_redis.Node.Process.Inline.{
  is_space, is_space_2, is_space_3, space_length, put_word, fields_from, fields,
}

-- A word of visible ASCII bytes.
abbrev pub IsVisible : Bytes → Type 0
IsVisible [] = Unit {0}
IsVisible (c ∷ s) = ((32 < c) × (c < 127)) × IsVisible s

abbrev pub AreWords : List Bytes → Type 0
AreWords [] = Unit {0}
AreWords (w ∷ ws) = (IsVisible w × (0 < length w)) × AreWords ws

-- The words with a space behind each but the last.
abbrev pub joined : List Bytes → Bytes
joined [] = []
joined (w ∷ []) = w
joined (w ∷ v ∷ ws) = w ++ (32 ∷ joined (v ∷ ws))

space_length-visible : (c : ℕ) (s : Bytes) → 32 < c → c < 127 → space_length (c ∷ s) ≡ 0
unfolding space_length is_space is_space_2 is_space_3
space_length-visible c [] lo hi = ground arith
space_length-visible c (b ∷ []) lo hi = ground arith
space_length-visible c (b ∷ a ∷ s) lo hi = ground arith

space_length-blank : (s : Bytes) → space_length (32 ∷ s) ≡ 1
unfolding space_length is_space
space_length-blank [] = refl
space_length-blank (b ∷ []) = refl
space_length-blank (b ∷ a ∷ s) = refl

fields_from-word :
    (word w s : Bytes)
    → IsVisible w
    → fields_from zero word (w ++ s) ≡ fields_from zero (word ++ w) s
unfolding fields_from
fields_from-word word [] s h = ap (λ v. fields_from zero v s) (sym (append-nil word))
fields_from-word word (c ∷ w) s h =
    rw (fields_from, space_length-visible c (w ++ s) h.0.0 h.0.1)
      (fields_from-word (word ++ (c ∷ [])) w s h.1
        ∙ ap (λ v. fields_from zero v s) (append_assoc word (c ∷ []) w))

put_word-filled : (w : Bytes) (ws : List Bytes) → 0 < length w → put_word w ws ≡ w ∷ ws
unfolding put_word
put_word-filled [] ws lt = absurd (omega arith)
put_word-filled (c ∷ w) ws lt = refl

pub fields-joined : (ws : List Bytes) → AreWords ws → fields (joined ws) ≡ ws
unfolding fields fields_from
fields-joined [] h = refl
fields-joined (w ∷ []) h =
    ap (λ s. fields_from zero [] s) (sym (append-nil w))
    ∙ fields_from-word [] w [] h.0.0
    ∙ put_word-filled w [] h.0.1
fields-joined (w ∷ v ∷ ws) h =
    fields_from-word [] w (32 ∷ joined (v ∷ ws)) h.0.0
    ∙ rw (fields_from, space_length-blank (joined (v ∷ ws)))
        (put_word-filled w _ h.0.1 ∙ ap (λ t. w ∷ t) (fields-joined (v ∷ ws) h.1))
