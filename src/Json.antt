-- ===== src/Json.antt =====
-- src/data/data_node.cpp: `DataSerializeJson` and what it calls. Each function gives the text that
-- its counterpart appends to `out`. `print_g p v` is what `snprintf` writes for "%.*g", and `strtod`
-- reads a number; both are functions of the C library, on bit patterns.
pub mod Compress
pub mod Plain
pub mod Pretty
pub mod Strings
mod Tests
use async.Base.{
  ℕ, zero, suc, ◌+◌, ◌-◌, ◌*◌, ◌/◌, ◌%◌, ◌^◌, Bool, true, false, not, ◌&&◌, ◌||◌, [], ◌∷◌, ◌++◌,
  ltb, leb, ◌==◌, if◌then◌else◌, Bytes,
}
use async.Data.{
  DataNode, Items, Fields, null, bool, int, float, string, array, object, int_map, binary, no_items,
  item, no_fields, field,
}
use async.Nodes.{float_eq}

abbrev pub quote : ℕ
quote = 34

abbrev pub backslash : ℕ
backslash = 92

-- One digit of "%04x".
abbrev pub hex_digit : ℕ → ℕ
hex_digit d = if ltb d 10 then d + 48 else d + 87

-- The `switch` of `serialize_string`.
unfoldable pub escape_char : ℕ → Bytes
escape_char c =
    if c == quote
    then backslash ∷ quote ∷ []
    else if c == backslash
    then backslash ∷ backslash ∷ []
    else if c == 8
    then backslash ∷ b'b' ∷ []
    else if c == 12
    then backslash ∷ b'f' ∷ []
    else if c == 10
    then backslash ∷ b'n' ∷ []
    else if c == 13
    then backslash ∷ b'r' ∷ []
    else if c == 9
    then backslash ∷ b't' ∷ []
    else if ltb c 0x20
    then backslash ∷ b'u' ∷ b'0' ∷ b'0' ∷ hex_digit (c / 16) ∷ hex_digit (c % 16) ∷ []
    else c ∷ []

unfoldable pub escape_all : Bytes → Bytes
escape_all [] = []
escape_all (c ∷ s) = escape_char c ++ escape_all s

unfoldable pub serialize_string : Bytes → Bytes
serialize_string s = quote ∷ (escape_all s ++ (quote ∷ []))

-- The digits of a number below 10 ^ suc fuel.
unfoldable pub decimal : (fuel n : ℕ) → Bytes
decimal zero n = (48 + n % 10) ∷ []
decimal (suc fuel) n =
    let front = decimal fuel (n / 10) in
    if ltb n 10 then (48 + n) ∷ [] else front ++ ((48 + n % 10) ∷ [])

-- "%lld" of an `int64_t`: 19 digits are enough.
unfoldable pub serialize_int : ℕ → Bytes
unfolding decimal
serialize_int v = if ltb v (2 ^ 63) then decimal 18 v else b'-' ∷ decimal 18 (2 ^ 64 - v)

abbrev pub null_text : Bytes
null_text = b'n' ∷ b'u' ∷ b'l' ∷ b'l' ∷ []

abbrev pub bool_text : Bool → Bytes
bool_text true = b't' ∷ b'r' ∷ b'u' ∷ b'e' ∷ []
bool_text false = b'f' ∷ b'a' ∷ b'l' ∷ b's' ∷ b'e' ∷ []

abbrev pub is_exp : ℕ → Bool
is_exp c = (c == b'e') || (c == b'E')

-- Whether the text has an exponent, and a dot before it.
unfoldable pub has_exp : Bytes → Bool
has_exp [] = false
has_exp (c ∷ s) = is_exp c || has_exp s

unfoldable pub has_dot : Bytes → Bool
has_dot [] = false
has_dot (c ∷ s) = if is_exp c then false else (c == b'.') || has_dot s

abbrev pub drop_first_plus : Bytes → Bytes
drop_first_plus [] = []
drop_first_plus (c ∷ s) = if c == b'+' then s else c ∷ s

-- `memmove` over the `+` behind the exponent's letter.
unfoldable pub drop_plus : Bytes → Bytes
drop_plus [] = []
drop_plus (c ∷ s) = if is_exp c then c ∷ drop_first_plus s else c ∷ drop_plus s

unfoldable pub finish_float : Bytes → Bytes
unfolding has_exp has_dot drop_plus
finish_float text =
    if not (has_dot text) && not (has_exp text)
    then drop_plus text ++ (b'.' ∷ b'0' ∷ [])
    else drop_plus text

-- `(depth) * 4` spaces.
unfoldable pub spaces : ℕ → Bytes
spaces zero = []
spaces (suc n) = 32 ∷ spaces n

abbrev pub k_max_serialize_depth : ℕ
k_max_serialize_depth = 128

module _ (print_g : ℕ → ℕ → Bytes) (strtod : Bytes → ℕ) where
  -- The loop over the precisions: the first text that reads back as the value, sign included, or that
  -- of the last precision.
  unfoldable pub shortest : (more precision v : ℕ) → Bytes
  unfolding float_eq
  shortest zero precision v = print_g precision v
  shortest (suc more) precision v =
      let text = print_g precision v in
      let longer = shortest more (precision + 1) v in
      if float_eq (strtod text) v && (strtod text / 2 ^ 63 == v / 2 ^ 63) then text else longer

  unfoldable pub serialize_float : ℕ → Bytes
  unfolding shortest finish_float
  serialize_float v =
      if v / 2 ^ 52 % 2 ^ 11 == 2047 then null_text else finish_float (shortest 16 1 v)

  unfoldable pub serialize_leaf : DataNode → Bytes
  unfolding serialize_int serialize_float serialize_string
  serialize_leaf null = null_text
  serialize_leaf (bool b) = bool_text b
  serialize_leaf (int v) = serialize_int v
  serialize_leaf (float v) = serialize_float v
  serialize_leaf (string s) = serialize_string s
  serialize_leaf (int_map es) = null_text
  serialize_leaf (binary b) = null_text
  serialize_leaf _ = []

  unfoldable mutual
    unfolding serialize_leaf serialize_string

    pub serialize_value : (depth : ℕ) → DataNode → Bytes
    serialize_value depth (array xs) =
        if ltb k_max_serialize_depth depth
        then null_text
        else b'[' ∷ (value_items true depth xs ++ (b']' ∷ []))
    serialize_value depth (object fs) =
        if ltb k_max_serialize_depth depth
        then null_text
        else b'{' ∷ (value_fields true depth fs ++ (b'}' ∷ []))
    serialize_value depth v =
        if ltb k_max_serialize_depth depth then null_text else serialize_leaf v

    pub value_items : (first : Bool) (depth : ℕ) → Items → Bytes
    value_items first depth no_items = []
    value_items first depth (item v xs) =
        (if first then [] else b',' ∷ [])
        ++ (serialize_value (depth + 1) v ++ value_items false depth xs)

    pub value_fields : (first : Bool) (depth : ℕ) → Fields → Bytes
    value_fields first depth no_fields = []
    value_fields first depth (field k v fs) =
        (if first then [] else b',' ∷ [])
        ++ (serialize_string k
            ++ (b':' ∷ (serialize_value (depth + 1) v ++ value_fields false depth fs)))

  unfoldable mutual
    unfolding serialize_leaf serialize_string spaces

    pub serialize_value_pretty : (depth : ℕ) → DataNode → Bytes
    serialize_value_pretty depth (array no_items) =
        if ltb k_max_serialize_depth depth then null_text else b'[' ∷ b']' ∷ []
    serialize_value_pretty depth (array xs) =
        if ltb k_max_serialize_depth depth
        then null_text
        else b'[' ∷ 10 ∷ (pretty_items true depth xs ++ (10 ∷ (spaces (depth * 4) ++ (b']' ∷ []))))
    serialize_value_pretty depth (object no_fields) =
        if ltb k_max_serialize_depth depth then null_text else b'{' ∷ b'}' ∷ []
    serialize_value_pretty depth (object fs) =
        if ltb k_max_serialize_depth depth
        then null_text
        else b'{' ∷ 10 ∷ (pretty_fields true depth fs ++ (10 ∷ (spaces (depth * 4) ++ (b'}' ∷ []))))
    serialize_value_pretty depth v =
        if ltb k_max_serialize_depth depth then null_text else serialize_leaf v

    pub pretty_items : (first : Bool) (depth : ℕ) → Items → Bytes
    pretty_items first depth no_items = []
    pretty_items first depth (item v xs) =
        (if first then [] else b',' ∷ 10 ∷ [])
        ++ (spaces ((depth + 1) * 4)
            ++ (serialize_value_pretty (depth + 1) v ++ pretty_items false depth xs))

    pub pretty_fields : (first : Bool) (depth : ℕ) → Fields → Bytes
    pretty_fields first depth no_fields = []
    pretty_fields first depth (field k v fs) =
        (if first then [] else b',' ∷ 10 ∷ [])
        ++ (spaces ((depth + 1) * 4)
            ++ (serialize_string k
                ++ (b':'
                    ∷ 32
                    ∷ (serialize_value_pretty (depth + 1) v ++ pretty_fields false depth fs))))

  -- `DataSerializeJson`
  unfoldable pub data_serialize_json : DataNode → (pretty : Bool) → Bytes
  unfolding serialize_value serialize_value_pretty
  data_serialize_json v true = serialize_value_pretty 0 v
  data_serialize_json v false = serialize_value 0 v
