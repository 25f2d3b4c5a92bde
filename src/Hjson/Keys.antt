-- ===== src/Hjson/Keys.antt =====
-- src/hjson/hjson_parse.cpp: the keys of objects.
use async.Base.{
  ℕ, suc, Bool, false, not, ◌&&◌, ◌||◌, [], ◌∷◌, Option, none, some, leb, ◌==◌, if◌then◌else◌,
  Bytes, take,
}
use async.Hjson.Scan.{is_punctuator, is_quote}
use async.Hjson.Reader.{Reader, at, char_at}
use async.Hjson.Strings.{Outcome, ok, rejected, read_quoted_string}

-- `c <= ' '` on a `char`, which is signed.
abbrev pub is_low : ℕ → Bool
is_low c = leb c 32 || leb 128 c

-- `firstSpace >= 0 && firstSpace != keyEnd`
abbrev pub has_space_inside : Option ℕ → (key_end : ℕ) → Bool
has_space_inside none key_end = false
has_space_inside (some first) key_end = not (first == key_end)

abbrev pub first_of : Option ℕ → ℕ → Option ℕ
first_of none i = some i
first_of (some first) i = some first

-- The loop of `read_unquoted_key`; positions are counted from `keyStart`, where `start` is the text.
unfoldable pub unquoted_key :
    (start : Bytes)
    → (i key_end : ℕ) → (first_space : Option ℕ) → (before rest : Bytes) → Outcome Bytes
unquoted_key start i key_end first_space b [] = rejected
unquoted_key start i key_end first_space b (c ∷ s) =
    let low = is_low c in
    let more : Outcome Bytes =
      unquoted_key start (suc i) (if low then key_end else suc i)
        (if low then first_of first_space i else first_space) (c ∷ b) s in
    if c == b':'
    then (if key_end == 0
        then rejected
        else if has_space_inside first_space key_end
        then rejected
        else ok (take key_end start) (at b (c ∷ s)))
    else if low
    then (if c == 0 then rejected else more)
    else if is_punctuator c
    then rejected
    else more

-- `read_unquoted_key`
unfoldable pub read_unquoted_key : Reader → Outcome Bytes
unfolding unquoted_key
read_unquoted_key (at b s) = unquoted_key s 0 0 none b s

-- `read_key`
unfoldable pub read_key : Reader → Outcome Bytes
unfolding read_quoted_string read_unquoted_key
read_key (at b s) =
    let c = char_at 0 s in
    if is_quote c
    then (if (c == 39) && (char_at 1 s == 39) && (char_at 2 s == 39)
        then rejected
        else read_quoted_string (at b s) false)
    else read_unquoted_key (at b s)
