-- ===== src/Hjson/Values.antt =====
-- src/hjson/hjson_parse.cpp: the values of a text. `read_value` recurs on the levels of depth that
-- are left, `kMaxDepth - depth + 1`; the loops over members run on the length of the text that is
-- left, plus one.
use async.Base.{
  ℕ, zero, suc, ◌+◌, ◌-◌, ◌%◌, ◌^◌, Bool, true, false, ◌&&◌, ◌||◌, [], ◌∷◌, Option, none, some, ltb,
  leb, ◌==◌, if◌then◌else◌, Bytes, length, take, drop,
}
use async.Data.{
  DataNode, Items, Fields, string, array, object, no_items, item, no_fields, put_field,
}
use async.Hjson.Scan.{is_nl, is_punctuator, is_quote}
use async.Hjson.Reader.{Reader, at, rest, step, peek, char_at, skip_ws, skip_separator}
use async.Hjson.Strings.{Outcome, ok, rejected, thrown, out_of_fuel, and_then, read_quoted_string}
use async.Hjson.Keys.{read_key}
use async.Hjson.Numbers.{try_parse_keyword_or_number}

abbrev pub k_max_depth : ℕ
k_max_depth = 256

-- `is_comment_start`
abbrev pub is_comment_start : Bytes → Bool
is_comment_start s =
    (char_at 0 s == 35) || ((char_at 0 s == 47) && ((char_at 1 s == 47) || (char_at 1 s == 42)))

-- `valEnd - valStart` of a `size_t`.
abbrev pub value_length : (val_end val_start : ℕ) → ℕ
value_length val_end val_start = (val_end + 2 ^ 64 - val_start) % 2 ^ 64

-- `MakeString(v, len)`: the `std::string` throws when `len` is more than it may hold.
abbrev pub make_string : (start : Bytes) → (len : ℕ) → Reader → Outcome DataNode
make_string start len r = if leb (2 ^ 63) len then thrown else ok (string (take len start)) r

-- `read_unquoted_value`, `push_back`
unfoldable pub push_back : Items → DataNode → Items
push_back no_items v = item v no_items
push_back (item w xs) v = item w (push_back xs v)

module _ (strtod : Bytes → ℕ × ℕ) where
  -- Behind the loop of `read_unquoted_value`.
  abbrev pub made_of : (start : Bytes) → (len : ℕ) → Reader → Option DataNode → Outcome DataNode
  made_of start len r none = if len == 0 then rejected else make_string start len r
  made_of start len r (some v) = ok v r

  abbrev pub finish_value : (start : Bytes) → (len : ℕ) → Reader → Outcome DataNode
  finish_value start len r = made_of start len r (try_parse_keyword_or_number strtod start len)

  -- The number or keyword that ends at a character.
  abbrev pub ends_here : (start : Bytes) → (len : ℕ) → (rest : Bytes) → Option DataNode
  ends_here start len s =
      if (char_at 0 s == b',')
        || (char_at 0 s == b'}')
        || (char_at 0 s == b']')
        || is_comment_start s
      then try_parse_keyword_or_number strtod start len
      else none

  -- The loop of `read_unquoted_value`: `start` is the text from `valStart` on; `pos`, `val_end` and
  -- `val_start` are counted from where the loop began.
  unfoldable pub unquoted_value :
      (start : Bytes) → (val_start pos val_end : ℕ) → (before rest : Bytes) → Outcome DataNode
  unfolding try_parse_keyword_or_number
  unquoted_value start val_start pos val_end b [] =
      finish_value start (value_length val_end val_start) (at b [])
  unquoted_value start val_start pos val_end b (c ∷ s) =
      if is_nl c
      then finish_value start (value_length val_end val_start) (at b (c ∷ s))
      else elim (ends_here start (value_length val_end val_start) (c ∷ s)) [
        | none ↦
            unquoted_value start val_start (suc pos) (if ltb 32 c then suc pos else val_end) (c ∷ b)
              s
        | some v ↦ ok v (at b (c ∷ s))
      ]

  -- `read_unquoted_value`; a `char` is signed.
  unfoldable pub read_unquoted_value : Reader → Outcome DataNode
  unfolding unquoted_value
  read_unquoted_value (at b s) =
      let first = char_at 0 s in
      let val_start = if leb first 32 && ltb 0 first then 1 else 0 in
      if is_punctuator first then rejected else unquoted_value (drop val_start s) val_start 0 0 b s

  -- The loops of `read_object` and `read_array`, with `read_value(r, depth + 1)` as `value`.
  module _ (value : Reader → Outcome DataNode) where
    abbrev pub member_value : Reader → Outcome DataNode
    member_value r = if peek r == b':' then value (skip_ws (step r)) else rejected

    unfoldable pub object_members : (fuel : ℕ) → (braced : Bool) → Fields → Reader → Outcome Fields
    unfolding read_key skip_ws skip_separator put_field
    object_members zero braced made r = out_of_fuel
    object_members (suc fuel) braced made (at b []) = ok made (at b [])
    object_members (suc fuel) braced made (at b (c ∷ s)) = elim (braced && (c == b'}')) [
      | true ↦ ok made (at b (c ∷ s))
      | false ↦ and_then (read_key (at b (c ∷ s))) (λ key r.
          and_then (member_value (skip_ws r))
            (λ val r1. object_members fuel braced (put_field key val made) (skip_separator r1)))
    ]

    -- The closing brace.
    abbrev pub close_object : (braced : Bool) → Fields → Reader → Outcome DataNode
    close_object false made r = ok (object made) r
    close_object true made r = if peek r == b'}' then ok (object made) (step r) else rejected

    -- `read_object`
    unfoldable pub read_object : (braced : Bool) → Reader → Outcome DataNode
    unfolding object_members
    read_object braced r =
        let first : Reader = skip_ws r in
        and_then (object_members (suc (length (rest first))) braced no_fields first)
          (close_object braced)

    unfoldable pub array_members : (fuel : ℕ) → Items → Reader → Outcome Items
    unfolding skip_separator push_back
    array_members zero made r = out_of_fuel
    array_members (suc fuel) made (at b []) = ok made (at b [])
    array_members (suc fuel) made (at b (c ∷ s)) = elim (c == b']') [
      | true ↦ ok made (at b (c ∷ s))
      | false ↦
          and_then (value (at b (c ∷ s)))
            (λ val r. array_members fuel (push_back made val) (skip_separator r))
    ]

    abbrev pub close_array : Items → Reader → Outcome DataNode
    close_array made r = if peek r == b']' then ok (array made) (step r) else rejected

    -- `read_array`
    unfoldable pub read_array : Reader → Outcome DataNode
    unfolding array_members
    read_array r =
        let first : Reader = skip_ws r in
        and_then (array_members (suc (length (rest first))) no_items first) close_array

    -- What `read_value` does at its first character.
    abbrev pub value_at : Reader → Outcome DataNode
    value_at (at b []) = rejected
    value_at (at b (c ∷ s)) =
        if c == b'{'
        then read_object true (at (c ∷ b) s)
        else if c == b'['
        then read_array (at (c ∷ b) s)
        else if is_quote c
        then and_then (read_quoted_string (at b (c ∷ s)) true) (λ text r. ok (string text) r)
        else read_unquoted_value (at b (c ∷ s))

  -- `read_value`
  unfoldable pub read_value : (levels : ℕ) → Reader → Outcome DataNode
  unfolding read_object read_array read_unquoted_value skip_ws
  read_value zero r = rejected
  read_value (suc levels) r = value_at (λ r1. read_value levels r1) (skip_ws r)
