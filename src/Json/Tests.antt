-- ===== src/Json/Tests.antt =====
-- Texts of the serializer, and the theorems at concrete values.
use async.Base.{ℕ, ◌≡◌, refl, true, false, [], ◌∷◌, ◌++◌, some, Bytes, ◌^◌, ◌-◌}
use async.Data.{DataNode, int, float, array, object, no_items, item, no_fields, field}
use async.Nodes.{float_eq, is_nan}
use async.Json.{
  escape_char, escape_all, serialize_string, serialize_int, decimal, serialize_value,
  data_serialize_json, serialize_leaf, serialize_float, shortest, finish_float,
}
use async.Json.Compress.{outside, compress}
use async.Json.Pretty.{compress-data_serialize_json}
use async.Json.Strings.{read_string, read_string-serialize_string}

-- {"a": [-1, 0.5]}
abbrev sample : DataNode
sample = object (
    field (b'a' ∷ []) (array (item (int (2 ^ 64 - 1)) (item (float 0x3fe0000000000000) no_items)))
      no_fields)

abbrev print_half : ℕ → ℕ → Bytes
print_half precision v = b'0' ∷ b'.' ∷ b'5' ∷ []

abbrev read_half : Bytes → ℕ
read_half text = 0x3fe0000000000000

compact_text :
    data_serialize_json print_half read_half sample false
    ≡ b'{' ∷ b'"' ∷ b'a' ∷ b'"' ∷ b':' ∷ b'[' ∷ b'-' ∷ b'1' ∷ b',' ∷ b'0' ∷ b'.' ∷ b'5' ∷ b']'
      ∷ b'}' ∷ []
unfolding data_serialize_json serialize_value serialize_leaf serialize_string escape_all escape_char
    serialize_int decimal serialize_float shortest finish_float float_eq is_nan
compact_text = refl

compress-data_serialize_json_example :
    compress outside (data_serialize_json print_half read_half sample true)
    ≡ data_serialize_json print_half read_half sample false
compress-data_serialize_json_example =
    compress-data_serialize_json print_half read_half (λ p v. (refl, (refl, (refl, tt)))) sample

read_string-serialize_string_example :
    read_string (serialize_string (b'a' ∷ 10 ∷ 1 ∷ 34 ∷ 200 ∷ []) ++ (b',' ∷ []))
    ≡ some (b'a' ∷ 10 ∷ 1 ∷ 34 ∷ 200 ∷ [], b',' ∷ [])
read_string-serialize_string_example =
    read_string-serialize_string (b'a' ∷ 10 ∷ 1 ∷ 34 ∷ 200 ∷ []) (b',' ∷ [])
