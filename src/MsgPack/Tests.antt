-- ===== src/MsgPack/Tests.antt =====
-- Runs of the encoder and the decoder, and the theorems at concrete values.
use async.Base.{bytes_eq, ◌+◌, ◌-◌, ◌^◌, ◌≡◌, ◌≢◌, ◌≤◌, refl, [], ◌∷◌, true, Bytes, arith}
use async.Data.{
  DataNode, bool, int, float, array, object, int_map, no_items, item, no_fields, field, no_entries,
  entry, size_items, size_fields, size_entries, has_field, has_entry,
}
use async.MsgPack.Write.{msg_pack_serialize}
use async.MsgPack.Reader.{ok, rejected, overrun}
use async.MsgPack.Read.{k_max_depth, msg_pack_parse}
use async.MsgPack.Encodable.{IsEncodable, levels, canon}
use async.MsgPack.Insert.{IsParsed}
use async.MsgPack.RoundTrip.{parse-serialize}
use async.MsgPack.Ensures.{IsBytes}
use async.MsgPack.Sound.{parse-ne-overrun, parse-IsParsed, parse-serialize-parse}

-- {"a": [1, -2 ^ 40, true], "b": {}}, where the inner map is an empty int map.
abbrev sample : DataNode
sample = object (
    field (b'a' ∷ [])
      (array (item (int 1) (item (int (2 ^ 64 - 2 ^ 40)) (item (bool true) no_items))))
      (field (b'b' ∷ []) (int_map (entry 5 (int_map no_entries) no_entries)) no_fields))

abbrev packed : Bytes
packed =
    0x82 ∷ 0xa1 ∷ b'a' ∷ 0x93 ∷ 1 ∷ 0xd3 ∷ 0xff ∷ 0xff ∷ 0xff ∷ 0 ∷ 0 ∷ 0 ∷ 0 ∷ 0 ∷ 0xc3 ∷ 0xa1
    ∷ b'b' ∷ 0x81 ∷ 5 ∷ 0x80 ∷ []

sample_bytes : msg_pack_serialize sample ≡ packed
unfolding msg_pack_serialize
sample_bytes = refl

abbrev unpacked : DataNode
unpacked = object (
    field (b'a' ∷ [])
      (array (item (int 1) (item (int (2 ^ 64 - 2 ^ 40)) (item (bool true) no_items))))
      (field (b'b' ∷ []) (int_map (entry 5 (object no_fields) no_entries)) no_fields))

packed_parses : msg_pack_parse 1000000 packed ≡ ok unpacked []
unfolding msg_pack_parse
packed_parses = refl

bad_key : msg_pack_parse 1000000 (0x81 ∷ 0xc0 ∷ 0xc0 ∷ []) ≡ rejected
unfolding msg_pack_parse
bad_key = refl

truncated : msg_pack_parse 1000000 (0xcd ∷ 1 ∷ []) ≡ rejected
unfolding msg_pack_parse
truncated = refl

-- 1.5f and the smallest subnormal float.
widened :
    msg_pack_parse 1000000 (0x92 ∷ 0xca ∷ 0x3f ∷ 0xc0 ∷ 0 ∷ 0 ∷ 0xca ∷ 0 ∷ 0 ∷ 0 ∷ 1 ∷ [])
    ≡ ok (array (item (float 0x3ff8000000000000) (item (float 0x36a0000000000000) no_items))) []
unfolding msg_pack_parse
widened = refl

sample-IsEncodable : IsEncodable 1000000 sample
unfolding IsEncodable size_items size_fields size_entries has_field has_entry bytes_eq
sample-IsEncodable = (
  omega arith,
  omega arith,
  (
    omega arith,
    refl,
    (omega arith, omega arith, (omega arith, (omega arith, (tt, tt)))),
    (
      omega arith,
      refl,
      (omega arith, omega arith, (omega arith, refl, (omega arith, omega arith, tt), tt)),
      tt,
    ),
  ),
)

levels-sample : levels sample ≤ k_max_depth + 1
unfolding levels
levels-sample = omega arith

packed-IsBytes : IsBytes packed
packed-IsBytes = omega arith

parse-serialize_example : msg_pack_parse 1000000 (msg_pack_serialize sample) ≡ ok (canon sample) []
parse-serialize_example = parse-serialize 1000000 sample sample-IsEncodable levels-sample

parse-ne-overrun_example : msg_pack_parse 1000000 packed ≢ overrun
parse-ne-overrun_example = parse-ne-overrun 1000000 packed packed-IsBytes

parse-IsParsed_example : IsParsed 1000000 (k_max_depth + 1) unpacked × (◌≡◌ {A = Bytes} [] [])
parse-IsParsed_example = parse-IsParsed 1000000 packed unpacked [] packed-IsBytes packed_parses

parse-serialize-parse_example :
    msg_pack_parse 1000000 (msg_pack_serialize unpacked) ≡ ok unpacked []
parse-serialize-parse_example =
    parse-serialize-parse 1000000 packed unpacked [] packed-IsBytes packed_parses
