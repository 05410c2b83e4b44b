-- ===== src/Hredis/Newline.antt =====
-- deps/hredis/read.go: `seekNewline`, which the bulk items use, against `bytes.Index` in `readLine`.
use go_mock_redis.Base.{
  ℕ, suc, ◌+◌, ◌≡◌, refl, ap, ◌∙◌, false, ◌&&◌, Option, none, some, inl, inr, [], ◌∷◌, arith, ltb,
  ◌==◌, Bool-cases, Bytes, length,
}
use go_mock_redis.Base.Lines.{Cut, keep, cut}
use go_mock_redis.Hredis.{seek_from, seek_newline}

-- `bytes.Index(s, "\r\n")` counted from `i` on, none for -1.
abbrev pub index_of : ℕ → Cut → Option ℕ
index_of i none = none
index_of i (some (line, rest)) = some (i + length line)

index_of-keep : (i c : ℕ) (o : Cut) → index_of (i + 1) o ≡ index_of i (keep c o)
index_of-keep i c none = refl
index_of-keep i c (some (line, rest)) = ap some (omega arith)

seek_from-cut : (i : ℕ) (s : Bytes) → seek_from i s ≡ index_of i (cut s)
unfolding seek_from cut
seek_from-cut i [] = refl
seek_from-cut i (a ∷ []) = refl
seek_from-cut i (a ∷ b ∷ s) = elim (Bool-cases ((a == 13) && (b == 10))) [
  | inl e ↦ rw e (ap some (omega arith))
  | inr e ↦ rw e (seek_from-cut (i + 1) (b ∷ s) ∙ index_of-keep i a (cut (b ∷ s)))
]

-- `seekNewline` finds the same place as the first CRLF of the text, which `readLine` finds with
-- the library, and none where there is none.
pub seek_newline-cut : (s : Bytes) → seek_newline s ≡ index_of 0 (cut s)
unfolding seek_newline
seek_newline-cut [] = seek_from-cut 0 []
seek_newline-cut (a ∷ []) = seek_from-cut 0 (a ∷ [])
seek_newline-cut (a ∷ b ∷ s) =
    let enough : ltb (suc (suc (length s))) 2 ≡ false = ground arith in
    rw enough (seek_from-cut 0 (a ∷ b ∷ s))
