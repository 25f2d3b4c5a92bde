-- ===== src/Hjson/Scan.antt =====
-- src/hjson/hjson_parse.cpp: the character table and the scalar scanners. A scanner gives how many
-- characters it passes; its `len` is the length of the list.
use async.Base.{ℕ, suc, Bool, not, ◌||◌, [], ◌∷◌, ◌==◌, if◌then◌else◌, Bytes}

-- `CC_WS`, `CC_NL`, `CC_STRUCT`, `CC_QUOTE`, `CC_SQUOTE`, `CC_HASH` and `CC_SLASH` of the table.
abbrev pub is_ws : ℕ → Bool
is_ws c = (c == 32) || ((c == 9) || ((c == 13) || (c == 10)))

abbrev pub is_nl : ℕ → Bool
is_nl c = (c == 10) || (c == 13)

abbrev pub is_punctuator : ℕ → Bool
is_punctuator c =
    (c == b'{') || ((c == b'}') || ((c == b'[') || ((c == b']') || ((c == b',') || (c == b':')))))

abbrev pub is_quote : ℕ → Bool
is_quote c = (c == 34) || (c == 39)

-- How many characters stand in front of the first that fails, or passes, the test.
unfoldable pub count_until : (ℕ → Bool) → Bytes → ℕ
count_until stop [] = 0
count_until stop (c ∷ s) = if stop c then 0 else suc (count_until stop s)

unfoldable pub skip_ws_scalar : Bytes → ℕ
unfolding count_until
skip_ws_scalar = count_until (λ c. not (is_ws c))

abbrev pub is_special : (quote : ℕ) → ℕ → Bool
is_special quote c = (c == quote) || ((c == 92) || ((c == 10) || (c == 13)))

unfoldable pub find_quote_or_special_scalar : Bytes → (quote : ℕ) → ℕ
unfolding count_until
find_quote_or_special_scalar s quote = count_until (is_special quote) s

unfoldable pub find_newline_scalar : Bytes → ℕ
unfolding count_until
find_newline_scalar = count_until is_nl

unfoldable pub find_char_scalar : Bytes → (target : ℕ) → ℕ
unfolding count_until
find_char_scalar s target = count_until (λ c. c == target) s
