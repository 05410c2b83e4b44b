-- ===== src/Hredis/Format/Template.antt =====
-- What `redisFormatCommand` makes of a format with the arguments that its specifiers ask for.
use go_mock_redis.Base.{
  ℕ, ◌≡◌, refl, ap, ◌∙◌, sym, ◌<◌, Bool, true, false, List, [], ◌∷◌, ◌++◌, append_assoc, append-nil,
  ◌==◌, lt→ltb, Bytes,
}
use go_mock_redis.Base.Text.{rune_text}
use go_mock_redis.Base.Signed.{ℤ}
use go_mock_redis.Base.Strconv.{format_int}
use go_mock_redis.Hredis.Format.{
  Arg, text, int, argv, Building, plain_byte, string_arg, int_arg, specifier, finish, format_from,
  redis_format_command,
}

-- A part of a word: a byte that stands for itself, `%s` or `%d`.
pub data Piece : Type 0 where
  literal : ℕ → Piece
  of_text : Bytes → Piece
  of_int : ℤ → Piece

abbrev pub IsPiece : Piece → Type 0
IsPiece (literal c) = ((c == b' ') ≡ false) × ((c == b'%') ≡ false) × (c < 128)
IsPiece _ = Unit {0}

abbrev pub piece_format : Piece → Bytes
piece_format (literal c) = c ∷ []
piece_format (of_text s) = b'%' ∷ b's' ∷ []
piece_format (of_int z) = b'%' ∷ b'd' ∷ []

abbrev pub piece_args : Piece → List Arg
piece_args (literal c) = []
piece_args (of_text s) = text s ∷ []
piece_args (of_int z) = int z ∷ []

abbrev pub piece_value : Piece → Bytes
piece_value (literal c) = c ∷ []
piece_value (of_text s) = s
piece_value (of_int z) = format_int z

-- The pieces of a part of a word.
abbrev pub pieces_format : List Piece → Bytes
pieces_format [] = []
pieces_format (p ∷ w) = piece_format p ++ pieces_format w

abbrev pub pieces_args : List Piece → List Arg
pieces_args [] = []
pieces_args (p ∷ w) = piece_args p ++ pieces_args w

abbrev pub pieces_value : List Piece → Bytes
pieces_value [] = []
pieces_value (p ∷ w) = piece_value p ++ pieces_value w

abbrev pub ArePieces : List Piece → Type 0
ArePieces [] = Unit {0}
ArePieces (p ∷ w) = IsPiece p × ArePieces w

-- A word has a piece at least.
abbrev pub Word : Type 0
Word = Piece × List Piece

abbrev pub pieces : Word → List Piece
pieces (p, w) = p ∷ w

-- The words with a space between each two.
abbrev pub words_format : List Word → Bytes
words_format [] = []
words_format (w ∷ []) = pieces_format (pieces w)
words_format (w ∷ v ∷ ws) = pieces_format (pieces w) ++ (b' ' ∷ words_format (v ∷ ws))

abbrev pub words_args : List Word → List Arg
words_args [] = []
words_args (w ∷ ws) = pieces_args (pieces w) ++ words_args ws

abbrev pub words_value : List Word → List Bytes
words_value [] = []
words_value (w ∷ ws) = pieces_value (pieces w) ∷ words_value ws

abbrev pub AreWords : List Word → Type 0
AreWords [] = Unit {0}
AreWords (w ∷ ws) = ArePieces (pieces w) × AreWords ws

abbrev building : Bytes → Bool → List Bytes → Building
building cur touched done = record { cur = cur; touched = touched; done = done }

literal-step :
    (c : ℕ) (s : Bytes) (args : List Arg) (cur : Bytes) (touched : Bool) (done : List Bytes)
    → IsPiece (literal c)
    → format_from (c ∷ s) args (building cur touched done)
      ≡ format_from s args (building (cur ++ (c ∷ [])) true done)
unfolding format_from plain_byte rune_text
literal-step c [] args cur touched done h = rw (h.0, h.1, lt→ltb c 128 h.2) refl
literal-step c (d ∷ s) args cur touched done h = rw (h.0, h.1, lt→ltb c 128 h.2) refl

piece-step :
    (p : Piece) (s : Bytes) (args : List Arg) (cur : Bytes) (touched : Bool) (done : List Bytes)
    → IsPiece p
    → format_from (piece_format p ++ s) (piece_args p ++ args) (building cur touched done)
      ≡ format_from s args (building (cur ++ piece_value p) true done)
unfolding format_from specifier string_arg int_arg
piece-step (literal c) s args cur touched done h = literal-step c s args cur touched done h
piece-step (of_text t) s args cur touched done h = refl
piece-step (of_int z) s args cur touched done h = refl

pieces-step :
    (p : Piece) (w : List Piece) (s : Bytes) (args : List Arg) (cur : Bytes) (touched : Bool)
    (done : List Bytes)
    → ArePieces (p ∷ w)
    → format_from
        (pieces_format (p ∷ w) ++ s)
        (pieces_args (p ∷ w) ++ args)
        (building cur touched done)
      ≡ format_from s args (building (cur ++ pieces_value (p ∷ w)) true done)
pieces-step p [] s args cur touched done h =
    rw (append-nil, append-nil, append-nil) (piece-step p s args cur touched done h.0)
pieces-step p (q ∷ w) s args cur touched done h =
    rw
      (
        append_assoc (piece_format p) (pieces_format (q ∷ w)) s,
        append_assoc (piece_args p) (pieces_args (q ∷ w)) args,
      )
      (piece-step p (pieces_format (q ∷ w) ++ s) (pieces_args (q ∷ w) ++ args) cur touched done h.0
        ∙ pieces-step q w s args (cur ++ piece_value p) true done h.1
        ∙ ap (λ t. format_from s args (building t true done))
            (append_assoc cur (piece_value p) (pieces_value (q ∷ w))))

space-step :
    (s : Bytes) (args : List Arg) (cur : Bytes) (done : List Bytes)
    → format_from (b' ' ∷ s) args (building cur true done)
      ≡ format_from s args (building [] false (done ++ (cur ∷ [])))
unfolding format_from plain_byte
space-step [] args cur done = refl
space-step (d ∷ s) args cur done = refl

words-step :
    (ws : List Word) (done : List Bytes)
    → AreWords ws
    → format_from (words_format ws) (words_args ws) (building [] false done)
      ≡ argv (done ++ words_value ws)
unfolding format_from finish
words-step [] done h = ap argv (sym (append-nil done))
words-step ((p, w) ∷ []) done h =
    ap (λ s. format_from s (pieces_args (p ∷ w) ++ []) (building [] false done))
      (sym (append-nil (pieces_format (p ∷ w))))
    ∙ pieces-step p w [] [] [] false done h.0
words-step ((p, w) ∷ v ∷ ws) done h =
    pieces-step p w (b' ' ∷ words_format (v ∷ ws)) (words_args (v ∷ ws)) [] false done h.0
    ∙ space-step (words_format (v ∷ ws)) (words_args (v ∷ ws)) (pieces_value (p ∷ w)) done
    ∙ words-step (v ∷ ws) (done ++ (pieces_value (p ∷ w) ∷ [])) h.1
    ∙ ap argv (append_assoc done (pieces_value (p ∷ w) ∷ []) (words_value (v ∷ ws)))

-- `redisFormatCommand` on words of ASCII bytes, `%s` and `%d`, with one space between each two,
-- and with the arguments that the specifiers ask for, gives one argument for each word, with texts
-- put in as they are and integers in decimal.
pub redis_format_command-words :
    (ws : List Word)
    → AreWords ws
    → redis_format_command (words_format ws) (words_args ws) ≡ argv (words_value ws)
unfolding redis_format_command
redis_format_command-words ws h = words-step ws [] h
