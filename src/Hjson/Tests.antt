-- ===== src/Hjson/Tests.antt =====
-- The parser on concrete texts, and its theorems there.
use async.Base.{
  none, suc, ℕ, ◌≤◌, ◌≡◌, ◌≢◌, refl, [], ◌∷◌, Bytes, bytes_eq, ◌-◌, ◌^◌, true, false, some, length,
  All, arith,
}
use async.Data.{
  DataNode, has_field, null, bool, int, string, array, object, no_items, item, no_fields, field,
}
use async.Hjson.Scan.{
  skip_ws_scalar, find_quote_or_special_scalar, find_newline_scalar, find_char_scalar,
}
use async.Hjson.Avx2.{skip_ws_avx2, find_quote_or_special_avx2, find_newline_avx2, find_char_avx2}
use async.Hjson.Reader.{Reader, at, rest, skip_ws, skip_ws_upto}
use async.Hjson.Parse.{parsed, exception, unfinished, hjson_parse}
use async.Hjson.Blocks.{scan_blocks_agree}
use async.Hjson.Content.{is_content, outside, remaining, skip_ws-remaining}
use async.Hjson.Document.{IsDocument}
use async.Hjson.Scalars.{is_control}
use async.Json.{data_serialize_json}
use async.Hjson.Starts.{IsReadable}
use async.Hjson.Again.{hjson_parse-data_serialize_json}
use async.Hjson.Sound.{hjson_parse-ne_unfinished, hjson_parse-IsDocument, hjson_parse-ne_exception}

abbrev no_numbers : Bytes → ℕ × ℕ
no_numbers text = (0, 0)

-- `{a:1, b:[true,x y` and a line with `]}`.
abbrev braced_text : Bytes
braced_text =
    b'{' ∷ b'a' ∷ b':' ∷ b'1' ∷ b',' ∷ b' ' ∷ b'b' ∷ b':' ∷ b'[' ∷ b't' ∷ b'r' ∷ b'u' ∷ b'e' ∷ b','
    ∷ b'x' ∷ b' ' ∷ b'y' ∷ 10 ∷ b']' ∷ b'}' ∷ []

abbrev braced_value : DataNode
braced_value = object (
    field (b'a' ∷ []) (int 1) (
      field (b'b' ∷ [])
        (array (item (bool true) (item (string (b'x' ∷ b' ' ∷ b'y' ∷ [])) no_items))) no_fields))

braced : hjson_parse no_numbers braced_text ≡ parsed braced_value
unfolding hjson_parse
braced = refl

-- No braces, two comments, and an escape.
loose :
    hjson_parse no_numbers (
      b'/' ∷ b'*' ∷ b' ' ∷ b'*' ∷ b'/' ∷ b'k' ∷ b':' ∷ b' ' ∷ 34 ∷ b'v' ∷ 92 ∷ b'u' ∷ b'0' ∷ b'0'
      ∷ b'4' ∷ b'1' ∷ 34 ∷ b' ' ∷ b'#' ∷ b'c' ∷ [])
    ≡ parsed (object (field (b'k' ∷ []) (string (b'v' ∷ b'A' ∷ [])) no_fields))
unfolding hjson_parse
loose = refl

-- Three quotes, with the indentation of the first line taken from all others.
several_lines :
    hjson_parse no_numbers (
      10 ∷ b' ' ∷ 39 ∷ 39 ∷ 39 ∷ 10 ∷ b' ' ∷ b' ' ∷ b'a' ∷ 10 ∷ b' ' ∷ 39 ∷ b'b' ∷ 10 ∷ b' ' ∷ 39
      ∷ 39 ∷ 39 ∷ 10 ∷ [])
    ≡ parsed (string (b' ' ∷ b'a' ∷ 10 ∷ 39 ∷ b'b' ∷ []))
unfolding hjson_parse
several_lines = refl

-- A control character alone: the length of the string is below 0.
control_throws : hjson_parse no_numbers (1 ∷ []) ≡ exception
unfolding hjson_parse
control_throws = refl

-- A key of five bytes, the last two for one letter, loses these.
key_is_cut :
    hjson_parse no_numbers (b'c' ∷ b'a' ∷ b'f' ∷ 0xc3 ∷ 0xa9 ∷ b':' ∷ b'1' ∷ [])
    ≡ parsed (object (field (b'c' ∷ b'a' ∷ b'f' ∷ []) (int 1) no_fields))
unfolding hjson_parse
key_is_cut = refl

-- A comment without an end.
open_comment : hjson_parse no_numbers (b'/' ∷ b'*' ∷ b'5' ∷ []) ≡ parsed (int 5)
unfolding hjson_parse
open_comment = refl

abbrev zeros : Bytes
zeros =
    0 ∷ 0 ∷ 0 ∷ 0 ∷ 0 ∷ 0 ∷ 0 ∷ 0 ∷ 0 ∷ 0 ∷ 0 ∷ 0 ∷ 0 ∷ 0 ∷ 0 ∷ 0 ∷ 0 ∷ 0 ∷ 0 ∷ 0 ∷ 0 ∷ 0 ∷ 0 ∷ 0
    ∷ 0 ∷ 0 ∷ 0 ∷ 0 ∷ 0 ∷ 0 ∷ 0 ∷ 0 ∷ []

scan_blocks_agree_example :
    (skip_ws_avx2 braced_text zeros ≡ some (skip_ws_scalar braced_text))
    × (find_quote_or_special_avx2 braced_text zeros 34
        ≡ some (find_quote_or_special_scalar braced_text 34))
    × (find_newline_avx2 braced_text zeros ≡ some (find_newline_scalar braced_text))
    × (find_char_avx2 braced_text zeros b'x' ≡ some (find_char_scalar braced_text b'x'))
scan_blocks_agree_example = scan_blocks_agree braced_text zeros 34 b'x' (omega arith)

abbrev commented : Reader
commented = at [] (b' ' ∷ b'#' ∷ b'a' ∷ 10 ∷ b'/' ∷ b'*' ∷ b'*' ∷ b'/' ∷ b'k' ∷ [])

skip_ws-remaining_example :
    (rest (skip_ws commented) ≡ remaining outside (rest commented))
    × (is_content (rest (skip_ws commented)) ≡ true)
    × (length (rest (skip_ws commented)) ≤ length (rest commented))
skip_ws-remaining_example = skip_ws-remaining commented

-- The reading one character at a time, at a text, and at comments without an end.
remaining_runs :
    (remaining outside (rest commented) ≡ b'k' ∷ [])
    × (remaining outside (b'/' ∷ b'*' ∷ b'5' ∷ []) ≡ b'5' ∷ [])
    × (remaining outside (b'/' ∷ b'*' ∷ b'5' ∷ b'5' ∷ []) ≡ [])
unfolding remaining
remaining_runs = (refl, refl, refl)

hjson_parse-ne_unfinished_example :
    (hjson_parse no_numbers braced_text ≢ unfinished)
    × ((r : Reader) → skip_ws_upto (suc (length (rest r))) r ≢ none)
hjson_parse-ne_unfinished_example = hjson_parse-ne_unfinished no_numbers braced_text

hjson_parse-IsDocument_example : IsDocument 257 braced_value
hjson_parse-IsDocument_example = hjson_parse-IsDocument no_numbers braced_text braced_value braced

plain_braced_text : All (λ c. is_control c ≡ false) braced_text
plain_braced_text = (
  refl,
  (
    refl,
    (
      refl,
      (
        refl,
        (
          refl,
          (
            refl,
            (
              refl,
              (
                refl,
                (
                  refl,
                  (
                    refl,
                    (
                      refl,
                      (refl, (refl, (refl, (refl, (refl, (refl, (refl, (refl, (refl, tt))))))))),
                    ),
                  ),
                ),
              ),
            ),
          ),
        ),
      ),
    ),
  ),
)

hjson_parse-ne_exception_example : hjson_parse no_numbers braced_text ≢ exception
hjson_parse-ne_exception_example =
    hjson_parse-ne_exception no_numbers braced_text plain_braced_text (omega arith)

abbrev no_digits : ℕ → ℕ → Bytes
no_digits precision v = []

abbrev no_float : Bytes → ℕ
no_float text = 0

-- With the integer -2 and a key that needs an escape.
abbrev nested_value : DataNode
nested_value = object (
    field (b'a' ∷ 34 ∷ []) (int (2 ^ 64 - 2)) (
      field (b'b' ∷ [])
        (array (item (bool true) (item null (item (string (b'x' ∷ 10 ∷ 0xe9 ∷ [])) no_items))))
        no_fields))

nested_value-IsReadable : IsReadable 128 nested_value
unfolding IsReadable has_field bytes_eq
nested_value-IsReadable = (refl, omega arith, (refl, (tt, (tt, (tt, tt))), tt))

hjson_parse-data_serialize_json_example :
    hjson_parse no_numbers (data_serialize_json no_digits no_float nested_value false)
    ≡ parsed nested_value
hjson_parse-data_serialize_json_example =
    hjson_parse-data_serialize_json no_digits no_float no_numbers nested_value tt
      nested_value-IsReadable
