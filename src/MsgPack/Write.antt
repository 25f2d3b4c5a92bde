-- ===== src/MsgPack/Write.antt =====
-- src/msgpack/msgpack_serialize.cpp: each writer is the bytes that it appends to `out`.
use async.Base.{
  ◌≡◌, refl, ℕ, ◌-◌, ◌/◌, ◌%◌, ◌^◌, [], ◌∷◌, ◌++◌, Bytes, bit_or, ltb, leb, if◌then◌else◌, length,
}
use async.Data.{
  DataNode, Items, Fields, Entries, null, bool, int, float, string, array, object, int_map, binary,
  no_items, item, no_fields, field, no_entries, entry, size_items, size_fields, size_entries,
}

unfoldable pub write_u8 : ℕ → Bytes
write_u8 v = (v % 256) ∷ []

unfoldable pub write_u16 : ℕ → Bytes
write_u16 v = (v / 2 ^ 8 % 256) ∷ (v % 256) ∷ []

unfoldable pub write_u32 : ℕ → Bytes
write_u32 v = (v / 2 ^ 24 % 256) ∷ (v / 2 ^ 16 % 256) ∷ (v / 2 ^ 8 % 256) ∷ (v % 256) ∷ []

unfoldable pub write_u64 : ℕ → Bytes
write_u64 v = write_u32 (v / 2 ^ 32 % 2 ^ 32) ++ write_u32 (v % 2 ^ 32)

-- The bits of a `double` are what the model keeps of it.
unfoldable pub write_f64 : ℕ → Bytes
write_f64 bits = write_u64 bits

unfoldable pub write_msgpack_str : Bytes → Bytes
write_msgpack_str s =
    let len = length s in
    (if leb len 31
      then write_u8 (bit_or 0xa0 (len % 256))
      else if leb len 0xff
      then write_u8 0xd9 ++ write_u8 (len % 256)
      else if leb len 0xffff
      then write_u8 0xda ++ write_u16 (len % 2 ^ 16)
      else write_u8 0xdb ++ write_u32 (len % 2 ^ 32))
    ++ s

-- `v` is a bit pattern: it stands for a negative number from 2 ^ 63 on, and -k is 2 ^ 64 - k.
unfoldable pub write_msgpack_int : ℕ → Bytes
write_msgpack_int v =
    if ltb v (2 ^ 63)
    then (if leb v 0x7f
        then write_u8 (v % 256)
        else if leb v 0xff
        then write_u8 0xcc ++ write_u8 (v % 256)
        else if leb v 0xffff
        then write_u8 0xcd ++ write_u16 (v % 2 ^ 16)
        else if leb v 0xffff_ffff
        then write_u8 0xce ++ write_u32 (v % 2 ^ 32)
        else write_u8 0xcf ++ write_u64 v)
    else (if leb (2 ^ 64 - 32) v
        then write_u8 (v % 256)
        else if leb (2 ^ 64 - 128) v
        then write_u8 0xd0 ++ write_u8 (v % 256)
        else if leb (2 ^ 64 - 32768) v
        then write_u8 0xd1 ++ write_u16 (v % 2 ^ 16)
        else if leb (2 ^ 64 - 2147483648) v
        then write_u8 0xd2 ++ write_u32 (v % 2 ^ 32)
        else write_u8 0xd3 ++ write_u64 v)

unfoldable pub write_msgpack_map_header : ℕ → Bytes
write_msgpack_map_header count =
    if leb count 15
    then write_u8 (bit_or 0x80 (count % 256))
    else if leb count 0xffff
    then write_u8 0xde ++ write_u16 (count % 2 ^ 16)
    else write_u8 0xdf ++ write_u32 (count % 2 ^ 32)

-- The header that `serialize_node` writes for an array of `count` elements.
unfoldable pub write_array_header : ℕ → Bytes
write_array_header count =
    if leb count 15
    then write_u8 (bit_or 0x90 (count % 256))
    else if leb count 0xffff
    then write_u8 0xdc ++ write_u16 (count % 2 ^ 16)
    else write_u8 0xdd ++ write_u32 (count % 2 ^ 32)

-- The case of `serialize_node` for binary data.
unfoldable pub write_binary : Bytes → Bytes
write_binary b =
    let len = length b in
    (if leb len 0xff
      then write_u8 0xc4 ++ write_u8 (len % 256)
      else if leb len 0xffff
      then write_u8 0xc5 ++ write_u16 (len % 2 ^ 16)
      else write_u8 0xc6 ++ write_u32 (len % 2 ^ 32))
    ++ b

unfoldable mutual
  pub serialize_node : DataNode → Bytes
  serialize_node null = write_u8 0xc0
  serialize_node (bool b) = write_u8 (if b then 0xc3 else 0xc2)
  serialize_node (int n) = write_msgpack_int n
  serialize_node (float bits) = write_u8 0xcb ++ write_f64 bits
  serialize_node (string s) = write_msgpack_str s
  serialize_node (array xs) = write_array_header (size_items xs) ++ serialize_items xs
  serialize_node (object fs) = write_msgpack_map_header (size_fields fs) ++ serialize_fields fs
  serialize_node (int_map es) = write_msgpack_map_header (size_entries es) ++ serialize_entries es
  serialize_node (binary b) = write_binary b

  pub serialize_items : Items → Bytes
  serialize_items no_items = []
  serialize_items (item v xs) = serialize_node v ++ serialize_items xs

  pub serialize_fields : Fields → Bytes
  serialize_fields no_fields = []
  serialize_fields (field k v fs) = write_msgpack_str k ++ (serialize_node v ++ serialize_fields fs)

  pub serialize_entries : Entries → Bytes
  serialize_entries no_entries = []
  serialize_entries (entry k v es) =
      write_msgpack_int k ++ (serialize_node v ++ serialize_entries es)

-- `MsgPackSerialize`.
unfoldable pub msg_pack_serialize : DataNode → Bytes
unfolding serialize_node write_msgpack_str write_msgpack_int write_msgpack_map_header
    write_array_header write_binary write_f64 write_u64 write_u32 write_u16 write_u8 size_items
    size_fields size_entries
msg_pack_serialize v = serialize_node v

pub msg_pack_serialize_lem : (v : DataNode) → msg_pack_serialize v ≡ serialize_node v
unfolding msg_pack_serialize
msg_pack_serialize_lem v = refl
