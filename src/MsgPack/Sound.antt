-- ===== src/MsgPack/Sound.antt =====
-- What the parser accepts is encodable, and no read passes the end of the input.
mod Containers
mod Widen
mod Typed
use async.Base.{
  ℕ, zero, suc, ◌+◌, ◌-◌, ◌*◌, ◌%◌, ◌^◌, ◌≤◌, ◌<◌, ◌≡◌, ◌≢◌, refl, sym, ap, ◌∙◌, ◌⊎◌, Bool, true,
  false, ◌∷◌, [], Bytes, arith, length, ltb, leb, ◌==◌, bit_and, if◌then◌else◌, Bool-cases, inl,
  inr, not, ◌&&◌,
}
use async.Data.{
  DataNode, Items, Fields, Entries, null, bool, int, float, string, array, object, int_map, binary,
  no_items, item, no_fields, field, no_entries, entry, size_items, size_fields, size_entries,
  put_field, put_entry,
}
use async.MsgPack.Write.{msg_pack_serialize}
use async.MsgPack.RoundTrip.{parse-serialize}
use async.MsgPack.Reader.{
  Outcome, ok, rejected, overrun, Reader, pure, and_then, ◌>>=◌, ◌>>◌, require, read_u8, read_u16,
  read_u32, read_u64,
}
use async.MsgPack.Read.{
  k_max_depth, sign_extend, widen_f32, int_key, string_key, has_int_keys, has_str_keys,
  read_entries, read_fields, read_items, read_keyed, read_map, read_array, read_str, read_bin,
  read_tagged, read_typed, read_node, finish, msg_pack_parse, msg_pack_parse-cons,
  msg_pack_parse-nil,
}
use async.MsgPack.Encodable.{
  canon, canon_items, canon_map, levels, levels_items, IsEncodable, ItemsEncodable,
}
use async.MsgPack.Insert.{
  IsParsed, FieldsParsed, EntriesParsed, FieldsParsed-put_field, EntriesParsed-put_entry,
  size_fields-put_field, size_entries-put_entry, size_entries-put_entry_pos,
}
use async.MsgPack.Masks.{mask_0f, mask_1f}
use async.MsgPack.Ensures.{
  Ensures, holds, refused, IsBytes, Left, Ensures-ok, Ensures-ne-overrun, Ensures-if, Ensures-bind,
  Ensures-weaken, guarded, guarded_u8, guarded_u16, guarded_u32, guarded_u64, guarded_peek,
  read_bytes-Ensures,
}
use async.MsgPack.Sound.Containers.{
  ReadsValue, Above, read_array-Ensures, read_map-Ensures, read_str-Ensures, read_bin-Ensures,
  int_Ensures, float_Ensures,
}
use async.MsgPack.Sound.Widen.{widen_f32-lt, sign_extend-lt}
use async.MsgPack.Sound.Typed.{later, read_typed-Ensures}

-- At every level the reader stays inside its input.
read_node-Ensures : (m d : ℕ) (r : Bytes) → IsBytes r → ReadsValue m d (read_node m d) r
unfolding read_node
read_node-Ensures m zero r w = refused
read_node-Ensures m (suc d) r w = guarded_u8 (read_typed (read_node m d) m) r w λ b r₁ l h.
    later m d (read_node m d) (read_node-Ensures m d) (read_typed (read_node m d) m b r₁) r r₁ h
      (read_typed-Ensures m d (read_node m d) (read_node-Ensures m d) b r₁ l h.0)

finish-Ensures :
    (m d : ℕ) (r : Bytes) (o : Outcome DataNode)
    → Ensures (λ v r'. IsParsed m d v × Left r r') o
    → Ensures (λ v r'. IsParsed m d v × (r' ≡ [])) (finish o)
unfolding finish
finish-Ensures m d r _ (holds {r = []} p) = holds (p.0, refl)
finish-Ensures m d r _ (holds {r = b ∷ r'} p) = refused
finish-Ensures m d r _ refused = refused

parse-Ensures :
    (m : ℕ) (bytes : Bytes)
    → IsBytes bytes
    → Ensures (λ v r. IsParsed m (k_max_depth + 1) v × (r ≡ [])) (msg_pack_parse m bytes)
parse-Ensures m [] w = rw msg_pack_parse-nil refused
parse-Ensures m (b ∷ r) w =
    rw msg_pack_parse-cons (
      finish-Ensures m (k_max_depth + 1) (b ∷ r) _
        (read_node-Ensures m (k_max_depth + 1) (b ∷ r) w))

-- Whatever bytes the parser is given, it never reads past the end of them.
pub parse-ne-overrun : (m : ℕ) (bytes : Bytes) → IsBytes bytes → msg_pack_parse m bytes ≢ overrun
parse-ne-overrun m bytes w = Ensures-ne-overrun (parse-Ensures m bytes w)

-- A value that the parser returns is encodable under the same limit, with each key once in its map,
-- is nested at most 256 deep below its root, has no empty int map, and the input is consumed.
pub parse-IsParsed :
    (m : ℕ) (bytes : Bytes) (v : DataNode) (r : Bytes)
    → IsBytes bytes
    → msg_pack_parse m bytes ≡ ok v r
    → IsParsed m (k_max_depth + 1) v × (r ≡ [])
parse-IsParsed m bytes v r w e = Ensures-ok v r (parse-Ensures m bytes w) e

-- Serializing what was parsed and parsing that once more gives the same value.
pub parse-serialize-parse :
    (m : ℕ) (bytes : Bytes) (v : DataNode) (r : Bytes)
    → IsBytes bytes
    → msg_pack_parse m bytes ≡ ok v r
    → msg_pack_parse m (msg_pack_serialize v) ≡ ok v []
parse-serialize-parse m bytes v r w e =
    let (p, done) = parse-IsParsed m bytes v r w e in
    parse-serialize m v p.encodable p.nesting ∙ ap (λ x. ok x []) p.canonical
