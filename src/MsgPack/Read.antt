-- ===== src/MsgPack/Read.antt =====
-- src/msgpack/msgpack_parse.cpp: the recursive reader. `read_node` recurs on the levels of depth
-- that are left, `kMaxDepth - depth + 1`, so that it needs no fuel; `max_elements` is
-- `g_max_container_elements`. The calls of a container for its parts are given as `rec`.
use async.Base.{
  ◌≡◌, refl, ℕ, zero, suc, ◌+◌, ◌-◌, ◌*◌, ◌/◌, ◌%◌, ◌^◌, Bool, true, false, ◌&&◌, ◌||◌, not, [],
  ◌∷◌, Bytes, bit_and, ltb, leb, ◌==◌, if◌then◌else◌, bytes_eq,
}
use async.Data.{
  DataNode, Items, Fields, Entries, null, bool, int, float, string, array, object, int_map, binary,
  no_items, item, no_fields, no_entries, put_field, put_entry,
}
use async.MsgPack.Reader.{
  Outcome, ok, rejected, overrun, Reader, pure, reject, ◌>>=◌, ◌>>◌, require, read_u8, peek_u8,
  read_u16, read_u32, read_u64, read_bytes,
}

abbrev pub k_max_depth : ℕ
k_max_depth = 256

-- `MsgPackSetMaxElements`: the new value of `g_max_container_elements`.
unfoldable pub set_max_elements : ℕ → ℕ
set_max_elements limit = if ltb 0 limit then limit else 1000000

-- `static_cast<int64_t>(static_cast<intW_t>(v))` for a w-bit pattern, with `half = 2 ^ (w - 1)`.
unfoldable pub sign_extend : ℕ → ℕ → ℕ
sign_extend half v = if ltb v half then v else v + 2 ^ 64 - 2 * half

-- The position of the highest one bit; 0 for 0.
unfoldable pub highest_bit : ℕ → ℕ → ℕ
highest_bit zero m = 0
highest_bit (suc k) m = let rest = highest_bit k m in if leb (2 ^ suc k) m then suc k else rest

-- `static_cast<double>` of a `float`, on the bits: IEEE 754 widening, exact on every number; a NaN
-- is made quiet.
unfoldable pub widen_f32 : ℕ → ℕ
widen_f32 w =
    let sign = w / 2 ^ 31 * 2 ^ 63 in
    let exponent = w / 2 ^ 23 % 256 in
    let mantissa = w % 2 ^ 23 in
    let top = highest_bit 22 mantissa in
    if exponent == 255
    then (if mantissa == 0
        then sign + 0x7ff * 2 ^ 52
        else sign + 0x7ff * 2 ^ 52 + 2 ^ 51 + mantissa % 2 ^ 22 * 2 ^ 29)
    else if exponent == 0
    then (if mantissa == 0
        then sign
        else sign + (top + 874) * 2 ^ 52 + (mantissa - 2 ^ top) * 2 ^ (52 - top))
    else sign + (exponent + 896) * 2 ^ 52 + mantissa * 2 ^ 29

-- The guards on the type of a key node.
unfoldable pub int_key : DataNode → Reader ℕ
int_key (int k) = pure k
int_key _ = reject

unfoldable pub string_key : DataNode → Reader Bytes
string_key (string s) = pure s
string_key _ = reject

-- What the type byte of the first key says of the map.
unfoldable pub has_int_keys : ℕ → Bool
has_int_keys peek = leb peek 0x7f || leb 0xe0 peek || (leb 0xcc peek && leb peek 0xd3)

unfoldable pub has_str_keys : ℕ → Bool
has_str_keys peek = (bit_and peek 0xe0 == 0xa0) || (leb 0xd9 peek && leb peek 0xdb)

module _ (rec : Reader DataNode) where
  unfoldable pub read_entries : ℕ → Entries → Reader Entries
  read_entries zero es = pure es
  read_entries (suc n) es = do
    key_node ← rec
    key ← int_key key_node
    val ← rec
    read_entries n (put_entry key val es)

  unfoldable pub read_fields : ℕ → Fields → Reader Fields
  read_fields zero fs = pure fs
  read_fields (suc n) fs = do
    key_node ← rec
    key ← string_key key_node
    val ← rec
    read_fields n (put_field key val fs)

  -- `push_back` in a loop of `count` rounds.
  unfoldable pub read_items : ℕ → Reader Items
  read_items zero = pure no_items
  read_items (suc n) = do elem ← rec; rest ← read_items n; pure (item elem rest)

  module _ (max_elements : ℕ) where
    -- The keys are all of the kind that the first one's type byte shows.
    unfoldable pub read_keyed : ℕ → ℕ → Reader DataNode
    read_keyed count peek =
        if not (has_int_keys peek) && not (has_str_keys peek)
        then reject
        else if has_int_keys peek
        then (do es ← read_entries count no_entries; pure (int_map es))
        else (do fs ← read_fields count no_fields; pure (object fs))

    unfoldable pub read_map : ℕ → Reader DataNode
    read_map count =
        if count == 0
        then pure (object no_fields)
        else if ltb max_elements count
        then reject
        else do require 1; peek ← peek_u8; read_keyed count peek

    unfoldable pub read_array : ℕ → Reader DataNode
    read_array count =
        if ltb max_elements count then reject else do xs ← read_items count; pure (array xs)

    unfoldable pub read_str : ℕ → Reader DataNode
    read_str len = do require len; p ← read_bytes len; pure (string p)

    unfoldable pub read_bin : ℕ → Reader DataNode
    read_bin len = do require len; p ← read_bytes len; pure (binary p)

    -- The `switch` on the type byte.
    unfoldable pub read_tagged : ℕ → Reader DataNode
    read_tagged b =
        if b == 0xc0
        then pure null
        else if b == 0xc1
        then reject
        else if b == 0xc2
        then pure (bool false)
        else if b == 0xc3
        then pure (bool true)
        else if b == 0xc4
        then (do require 1; len ← read_u8; read_bin len)
        else if b == 0xc5
        then (do require 2; len ← read_u16; read_bin len)
        else if b == 0xc6
        then (do require 4; len ← read_u32; read_bin len)
        else if leb 0xc7 b && leb b 0xc9
        then reject
        else if b == 0xca
        then (do require 4; v ← read_u32; pure (float (widen_f32 v)))
        else if b == 0xcb
        then (do require 8; v ← read_u64; pure (float v))
        else if b == 0xcc
        then (do require 1; v ← read_u8; pure (int v))
        else if b == 0xcd
        then (do require 2; v ← read_u16; pure (int v))
        else if b == 0xce
        then (do require 4; v ← read_u32; pure (int v))
        else if b == 0xcf
        then (do require 8; v ← read_u64; pure (int v))
        else if b == 0xd0
        then (do require 1; v ← read_u8; pure (int (sign_extend (2 ^ 7) v)))
        else if b == 0xd1
        then (do require 2; v ← read_u16; pure (int (sign_extend (2 ^ 15) v)))
        else if b == 0xd2
        then (do require 4; v ← read_u32; pure (int (sign_extend (2 ^ 31) v)))
        else if b == 0xd3
        then (do require 8; v ← read_u64; pure (int v))
        else if leb 0xd4 b && leb b 0xd8
        then reject
        else if b == 0xd9
        then (do require 1; len ← read_u8; read_str len)
        else if b == 0xda
        then (do require 2; len ← read_u16; read_str len)
        else if b == 0xdb
        then (do require 4; len ← read_u32; read_str len)
        else if b == 0xdc
        then (do require 2; count ← read_u16; read_array count)
        else if b == 0xdd
        then (do require 4; count ← read_u32; read_array count)
        else if b == 0xde
        then (do require 2; count ← read_u16; read_map count)
        else if b == 0xdf
        then (do require 4; count ← read_u32; read_map count)
        else reject

    -- The fixed types, whose byte holds a value or a length.
    unfoldable pub read_typed : ℕ → Reader DataNode
    read_typed b =
        if leb b 0x7f
        then pure (int b)
        else if leb 0xe0 b
        then pure (int (sign_extend (2 ^ 7) b))
        else if bit_and b 0xf0 == 0x80
        then read_map (bit_and b 0x0f)
        else if bit_and b 0xf0 == 0x90
        then read_array (bit_and b 0x0f)
        else if bit_and b 0xe0 == 0xa0
        then read_str (bit_and b 0x1f)
        else read_tagged b

unfoldable pub read_node : (max_elements levels : ℕ) → Reader DataNode
read_node max_elements zero = reject
read_node max_elements (suc d) = do
  require 1
  b ← read_u8
  read_typed (read_node max_elements d) max_elements b

-- The check that all input is consumed.
unfoldable pub finish : Outcome DataNode → Outcome DataNode
finish (ok v []) = ok v []
finish (ok v (b ∷ r)) = rejected
finish rejected = rejected
finish overrun = overrun

-- `MsgPackParse`; an empty input and a null pointer are alike.
unfoldable pub msg_pack_parse : (max_elements : ℕ) → Bytes → Outcome DataNode
unfolding read_node finish read_typed read_tagged read_map read_keyed read_array read_items
    read_fields read_entries int_key string_key has_int_keys has_str_keys read_str read_bin require
    read_bytes read_u8 peek_u8 read_u16 read_u32 read_u64 sign_extend widen_f32 highest_bit
    put_field put_entry bytes_eq
msg_pack_parse max_elements [] = rejected
msg_pack_parse max_elements (b ∷ r) = finish (read_node max_elements (k_max_depth + 1) (b ∷ r))

pub msg_pack_parse-cons :
    (max_elements b : ℕ) (r : Bytes)
    → msg_pack_parse max_elements (b ∷ r)
      ≡ finish (read_node max_elements (k_max_depth + 1) (b ∷ r))
unfolding msg_pack_parse
msg_pack_parse-cons max_elements b r = refl

pub msg_pack_parse-nil : (max_elements : ℕ) → msg_pack_parse max_elements [] ≡ rejected
unfolding msg_pack_parse
msg_pack_parse-nil max_elements = refl
