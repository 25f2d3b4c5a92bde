-- ===== src/Hjson/Numbers.antt =====
-- src/hjson/hjson_parse.cpp: numbers and keywords. `start` is the text from a position on, to the end
-- of the buffer; behind it stand zeros. `strtod text` is the number that the C library reads at the
-- start of `text`, as a bit pattern, and how many characters it takes for it.
use async.Base.{
  ℕ, suc, ◌+◌, ◌-◌, ◌*◌, ◌%◌, ◌^◌, Bool, true, false, not, ◌&&◌, ◌||◌, [], ◌∷◌, Option, none, some,
  ◌>>=◌, ltb, leb, ◌==◌, if◌then◌else◌, Bytes, bytes_eq, take, drop,
}
use async.Data.{DataNode, null, bool, int, float}
use async.Json.{null_text, bool_text}
use async.Hjson.Scan.{count_until}
use async.Hjson.Reader.{char_at}

abbrev pub is_digit : ℕ → Bool
is_digit c = leb 48 c && leb c 57

abbrev pub drop_digits : Bytes → Bytes
drop_digits s = drop (count_until (λ c. not (is_digit c)) s) s

-- A digit is wanted, and those behind it are passed.
abbrev pub some_digits : Bytes → Option Bytes
some_digits s = if is_digit (char_at 0 s) then some (drop_digits s) else none

-- The part in front of the point: none for a digit behind a zero.
abbrev pub integer_part : Bytes → Option Bytes
integer_part s = if (char_at 0 s == 48) && is_digit (char_at 1 s) then none else some_digits s

-- `is_float` joins what is left of the text.
abbrev pub fraction_part : Bytes → Option (Bytes × Bool)
fraction_part [] = some ([], false)
fraction_part (c ∷ s) =
    if c == b'.' then (do t ← some_digits s; some (t, true)) else some (c ∷ s, false)

abbrev pub skip_sign : Bytes → Bytes
skip_sign [] = []
skip_sign (c ∷ s) = if (c == b'+') || (c == b'-') then s else c ∷ s

abbrev pub exponent_part : Bytes → (is_float : Bool) → Option (Bytes × Bool)
exponent_part [] is_float = some ([], is_float)
exponent_part (c ∷ s) is_float =
    if (c == b'e') || (c == b'E')
    then (do t ← some_digits (skip_sign s); some (t, true))
    else some (c ∷ s, is_float)

abbrev pub at_end : Bytes × Bool → Option Bool
at_end ([], is_float) = some is_float
at_end (c ∷ s, is_float) = none

-- The checks of `try_parse_number` on the characters from `start` to `pend`: none where it returns
-- `nullptr`, else `is_float`. A character past the end counts as no digit.
unfoldable pub check_number : Bytes → Option Bool
unfolding count_until
check_number s = do
  t ← integer_part (if char_at 0 s == b'-' then drop 1 s else s)
  u ← fraction_part t
  v ← exponent_part u.0 u.1
  at_end v

unfoldable pub decimal_value : (acc : ℕ) → Bytes → ℕ
decimal_value acc [] = acc
decimal_value acc (c ∷ s) =
    let rest = decimal_value (acc * 10 + (c - 48)) s in if is_digit c then rest else acc

-- `strtoll` on a text that starts with a digit or a minus sign: how many characters it takes, and the
-- value, none on `ERANGE`.
unfoldable pub strtoll : Bytes → ℕ × Option ℕ
unfolding count_until decimal_value
strtoll s =
    let negative = char_at 0 s == b'-' in
    let digits : Bytes = if negative then drop 1 s else s in
    let n = decimal_value 0 digits in
    let taken = count_until (λ c. not (is_digit c)) digits in
    if negative
    then (suc taken, if leb n (2 ^ 63) then some ((2 ^ 64 - n) % 2 ^ 64) else none)
    else (taken, if ltb n (2 ^ 63) then some n else none)

module _ (strtod : Bytes → ℕ × ℕ) where
  -- Not a number of the C library's when it is infinite or a NaN, or stands elsewhere.
  abbrev pub finite_float : (len : ℕ) → ℕ × ℕ → Option DataNode
  finite_float len (v, taken) =
      if (taken == len) && ltb (v % 2 ^ 63) (2047 * 2 ^ 52) then some (float v) else none

  abbrev pub int_or_float : (start : Bytes) → (len : ℕ) → ℕ × Option ℕ → Option DataNode
  int_or_float start len (taken, some v) =
      if taken == len then some (int v) else finite_float len (strtod start)
  int_or_float start len (taken, none) = finite_float len (strtod start)

  abbrev pub number_node : (start : Bytes) → (len : ℕ) → Option Bool → Option DataNode
  number_node start len none = none
  number_node start len (some true) = finite_float len (strtod start)
  number_node start len (some false) = int_or_float start len (strtoll start)

  -- `try_parse_number`
  unfoldable pub try_parse_number : (start : Bytes) → (len : ℕ) → Option DataNode
  unfolding check_number strtoll
  try_parse_number start len = number_node start len (check_number (take len start))

  -- `try_parse_keyword_or_number`
  unfoldable pub try_parse_keyword_or_number : (start : Bytes) → (len : ℕ) → Option DataNode
  unfolding try_parse_number bytes_eq
  try_parse_keyword_or_number start len =
      if len == 0
      then none
      else if (len == 4) && bytes_eq (take 4 start) (bool_text true)
      then some (bool true)
      else if (len == 5) && bytes_eq (take 5 start) (bool_text false)
      then some (bool false)
      else if (len == 4) && bytes_eq (take 4 start) null_text
      then some null
      else if (char_at 0 start == b'-') || is_digit (char_at 0 start)
      then try_parse_number start len
      else none
