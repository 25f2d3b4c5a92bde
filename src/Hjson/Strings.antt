-- ===== src/Hjson/Strings.antt =====
-- src/hjson/hjson_parse.cpp: the strings in quotes, and those in three quotes that may have several
-- lines. A function gives its result and where the reader stands, or that there is none.
use async.Base.{
  ℕ, zero, suc, ◌+◌, ◌*◌, ◌/◌, ◌%◌, ◌^◌, Bool, true, false, not, ◌&&◌, ◌||◌, [], ◌∷◌, ◌++◌, Option,
  none, some, ◌>>=◌, bit_or, ltb, leb, ◌==◌, if◌then◌else◌, Bytes, length, take, drop,
}
use async.Hex.{digit_value}
use async.Hjson.Scan.{is_nl, is_quote, count_until, find_quote_or_special_scalar}
use async.Hjson.Reader.{Reader, at, pass, step, char_at}

-- `thrown` is an exception of the C++ library; `out_of_fuel` is no result of the code, and none of
-- this model.
pub data Outcome {ℓ} (A : Type ℓ) : Type ℓ where
  ok : A → Reader → Outcome A
  rejected thrown out_of_fuel : Outcome A

abbrev pub and_then {ℓ κ} :
    {A : Type ℓ} {B : Type κ} → Outcome A → (A → Reader → Outcome B) → Outcome B
and_then (ok a r) f = f a r
and_then rejected f = rejected
and_then thrown f = thrown
and_then out_of_fuel f = out_of_fuel

-- `utf8_encode`: what it appends.
unfoldable pub utf8_encode : ℕ → Bytes
utf8_encode cp =
    if ltb cp 0x80
    then cp ∷ []
    else if ltb cp 0x800
    then bit_or 0xC0 (cp / 2 ^ 6) ∷ bit_or 0x80 (cp % 2 ^ 6) ∷ []
    else if ltb cp 0x10000
    then bit_or 0xE0 (cp / 2 ^ 12)
      ∷ bit_or 0x80 (cp / 2 ^ 6 % 2 ^ 6)
      ∷ bit_or 0x80 (cp % 2 ^ 6)
      ∷ []
    else if ltb cp 0x110000
    then bit_or 0xF0 (cp / 2 ^ 18)
      ∷ bit_or 0x80 (cp / 2 ^ 12 % 2 ^ 6)
      ∷ bit_or 0x80 (cp / 2 ^ 6 % 2 ^ 6)
      ∷ bit_or 0x80 (cp % 2 ^ 6)
      ∷ []
    else []

-- `parse_u_escape`: four hexadecimal digits.
unfoldable pub parse_u_escape : (digits : ℕ) → (cp : ℕ) → Reader → Option (ℕ × Reader)
parse_u_escape zero cp r = some (cp, r)
parse_u_escape (suc n) cp (at b []) = none
parse_u_escape (suc n) cp (at b (h ∷ s)) = do
  hex ← digit_value h
  parse_u_escape n (cp * 16 + hex) (at (h ∷ b) s)

-- The test of `skipIndent` on a `char`, which is signed.
abbrev pub is_blank : ℕ → Bool
is_blank c = ltb 0 c && leb c 32 && not (c == 10)

-- `skipIndent`
unfoldable pub skip_indent : (skip : ℕ) → (before rest : Bytes) → Reader
skip_indent zero b s = at b s
skip_indent (suc n) b [] = at b []
skip_indent (suc n) b (c ∷ s) = if is_blank c then skip_indent n (c ∷ b) s else at b (c ∷ s)

-- The quotes that turned out not to be the end.
unfoldable pub quotes : ℕ → Bytes
quotes zero = []
quotes (suc n) = 39 ∷ quotes n

-- `out.pop_back()` when the last character is a newline.
unfoldable pub pop_newline : Bytes → Bytes
pop_newline [] = []
pop_newline (c ∷ []) = if c == 10 then [] else c ∷ []
pop_newline (c ∷ d ∷ s) = c ∷ pop_newline (d ∷ s)

-- One round of the loop of `read_multiline_string`, with `again` for the next.
module _ (again : (out : Bytes) → (triple : ℕ) → (last_lf : Bool) → Reader → Outcome Bytes) where
  unfoldable pub multiline_char :
      (indent : ℕ) → (out : Bytes) → (triple : ℕ) → (last_lf : Bool) → Reader → Outcome Bytes
  unfolding quotes skip_indent pop_newline
  multiline_char indent out triple last_lf (at b []) = rejected
  multiline_char indent out triple last_lf (at b (c ∷ s)) =
      let out1 : Bytes = out ++ quotes triple in
      let last_lf1 : Bool = if ltb 0 triple then false else last_lf in
      if c == 39
      then (if suc triple == 3
          then ok (if last_lf then pop_newline out else out) (at (c ∷ b) s)
          else again out (suc triple) last_lf (at (c ∷ b) s))
      else if c == 10
      then again (out1 ++ (10 ∷ [])) 0 true (skip_indent indent (c ∷ b) s)
      else if c == 13
      then again out1 0 last_lf1 (at (c ∷ b) s)
      else again (out1 ++ (c ∷ [])) 0 false (at (c ∷ b) s)

unfoldable pub multiline :
    (fuel indent : ℕ) → (out : Bytes) → (triple : ℕ) → (last_lf : Bool) → Reader → Outcome Bytes
unfolding multiline_char
multiline zero indent out triple last_lf r = out_of_fuel
multiline (suc fuel) indent out triple last_lf r =
    multiline_char (λ o t l r1. multiline fuel indent o t l r1) indent out triple last_lf r

-- The rest of the line of the opening quotes, and the indentation of the next one.
abbrev pub multiline_start : (indent : ℕ) → Reader → Reader
multiline_start indent (at b []) = at b []
multiline_start indent (at b (c ∷ s)) =
    if c == 10 then skip_indent indent (c ∷ b) s else at b (c ∷ s)

-- `read_multiline_string`; what it looks back at is in front of the three quotes.
unfoldable pub read_multiline_string : Reader → Outcome Bytes
unfolding count_until pass multiline
read_multiline_string (at b s) =
    let indent = count_until (λ c. (c == 10) || (c == 0)) (drop 3 b) in
    let first : Reader = pass (count_until (λ c. not (is_blank c)) s) b s in
    multiline (suc (length s)) indent [] 0 false (multiline_start indent first)

-- The `switch` on the character behind a backslash, `u` left out.
abbrev pub escape_value : ℕ → Option ℕ
escape_value c =
    if c == 34
    then some 34
    else if c == 39
    then some 39
    else if c == 92
    then some 92
    else if c == b'/'
    then some b'/'
    else if c == b'b'
    then some 8
    else if c == b'f'
    then some 12
    else if c == b'n'
    then some 10
    else if c == b'r'
    then some 13
    else if c == b't'
    then some 9
    else none

-- One round of the loop of `read_quoted_string`, with `again` for the next.
module _ (again : (out : Bytes) → Reader → Outcome Bytes) where
  abbrev pub after_u : (out : Bytes) → Option (ℕ × Reader) → Outcome Bytes
  after_u out none = rejected
  after_u out (some (cp, r)) = again (out ++ utf8_encode cp) r

  abbrev pub after_escape : (out : Bytes) → Option ℕ → Reader → Outcome Bytes
  after_escape out none r = rejected
  after_escape out (some c) r = again (out ++ (c ∷ [])) r

  abbrev pub quoted_escape : (out : Bytes) → Reader → Outcome Bytes
  quoted_escape out (at b []) = rejected
  quoted_escape out (at b (c ∷ s)) =
      if c == b'u'
      then after_u out (parse_u_escape 4 0 (at (c ∷ b) s))
      else after_escape out (escape_value c) (at (c ∷ b) s)

  abbrev pub quoted_char : (quote : ℕ) → (out : Bytes) → Reader → Outcome Bytes
  quoted_char quote out (at b []) = rejected
  quoted_char quote out (at b (c ∷ s)) =
      if c == quote
      then ok out (at (c ∷ b) s)
      else if is_nl c
      then rejected
      else if not (c == 92)
      then again (out ++ (c ∷ [])) (at (c ∷ b) s)
      else quoted_escape out (at (c ∷ b) s)

unfoldable pub quoted : (fuel quote : ℕ) → (out : Bytes) → Reader → Outcome Bytes
unfolding find_quote_or_special_scalar pass utf8_encode parse_u_escape
quoted zero quote out r = out_of_fuel
quoted (suc fuel) quote out (at b s) =
    let run = find_quote_or_special_scalar s quote in
    quoted_char (λ o r. quoted fuel quote o r) quote (out ++ take run s) (pass run b s)

-- Behind the quote that opens a string.
unfoldable pub read_string_body :
    (quote : ℕ) → (allow_ml : Bool) → (before rest : Bytes) → Outcome Bytes
unfolding read_multiline_string quoted
read_string_body quote allow_ml b s =
    let plain : Outcome Bytes = quoted (suc (length s)) quote [] (at b s) in
    if quote == 39
    then (if allow_ml && (char_at 0 s == 39) && (char_at 1 s == 39)
        then read_multiline_string (pass 2 b s)
        else if char_at 0 s == 39
        then ok [] (step (at b s))
        else plain)
    else plain

-- `read_quoted_string`
unfoldable pub read_quoted_string : Reader → (allow_ml : Bool) → Outcome Bytes
unfolding read_string_body
read_quoted_string (at b []) allow_ml = rejected
read_quoted_string (at b (c ∷ s)) allow_ml =
    if is_quote c then read_string_body c allow_ml (c ∷ b) s else rejected
