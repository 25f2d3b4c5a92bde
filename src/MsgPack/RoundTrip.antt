-- ===== src/MsgPack/RoundTrip.antt =====
-- Parsing what was serialized gives the value back.
mod Loops
use async.Base.{
  ℕ, zero, suc, ◌+◌, ◌*◌, ◌^◌, ◌≤◌, ◌<◌, ◌≡◌, refl, sym, ap, ◌∙◌, ◌∷◌, [], ◌++◌, Bytes, arith,
  length, true, false, Bool, ltb, ◌==◌, append_assoc, append-nil, max,
}
use async.Data.{
  DataNode, Items, Fields, Entries, null, bool, int, float, string, array, object, int_map, binary,
  no_items, item, no_fields, field, no_entries, entry, size_items, size_fields, size_entries,
  has_field, put_field, put_entry,
}
use async.Data.Maps.{
  append_fields, append_entries, append_fields-nil, append_entries-nil, append_fields_assoc,
  append_entries_assoc, put_field-new, put_entry-new, FieldsApart, EntriesApart, FieldsApart-nil,
  EntriesApart-nil, FieldsApart-snoc, EntriesApart-snoc,
}
use async.MsgPack.Write.{
  write_u8, write_msgpack_str, write_msgpack_int, serialize_node, serialize_items, serialize_fields,
  serialize_entries, msg_pack_serialize, msg_pack_serialize_lem,
}
use async.MsgPack.Reader.{Outcome, ok, rejected, Reader, require, has}
use async.MsgPack.Read.{
  int_key, string_key, read_entries, read_fields, read_items, read_keyed, read_map, read_array,
  read_typed, read_tagged, read_node, finish, k_max_depth, msg_pack_parse, msg_pack_parse-cons,
}
use async.MsgPack.Encodable.{
  canon_map, canon, canon_items, canon_fields, canon_entries, levels, levels_items, levels_fields,
  levels_entries, IsEncodable, ItemsEncodable, FieldsEncodable, EntriesEncodable,
}
use async.MsgPack.Sized.{read_node_step}
use async.MsgPack.Scalars.{
  read_node-str, read_node-bin, read_node-array_header, read_node-map_header, read_node-float,
}
use async.MsgPack.Integers.{read_node-int}
use async.MsgPack.Keys.{first, peek-first, has_int_keys-int, has_str_keys-str}
use async.MsgPack.RoundTrip.Loops.{
  read_map-fields, read_map-entries, read_fields-step, read_entries-step, read_map-empty,
  read_fields-zero, read_entries-zero,
}

-- A value needs a level.
levels_pos : (v : DataNode) → 0 < levels v
unfolding levels
levels_pos (array xs) = omega arith
levels_pos _ = omega arith

-- A bound above a positive number is a successor.
from_suc {ℓ} :
    (P : ℕ → Type ℓ) (n : ℕ) → ((d : ℕ) → n ≤ suc d → P (suc d)) → 0 < n → (d : ℕ) → n ≤ d → P d
from_suc P n k pos zero h = absurd (omega arith)
from_suc P n k pos (suc d) h = k d h

module _ (m : ℕ) where
  abbrev GivenBack : DataNode → Bytes → ℕ → Type 0
  GivenBack v r d = read_node m d (serialize_node v ++ r) ≡ ok (canon v) r

  mutual
    unfolding serialize_node canon levels IsEncodable read_items read_array append_fields
        append_entries size_items size_fields size_entries write_u8 read_typed read_tagged

    read_node-serialize :
        (v : DataNode) (r : Bytes)
        → IsEncodable m v
        → (d : ℕ) → levels v ≤ suc d
        → GivenBack v r (suc d)
    read_node-serialize null r enc d h = rw read_node_step
    read_node-serialize (bool true) r enc d h = rw read_node_step
    read_node-serialize (bool false) r enc d h = rw read_node_step
    read_node-serialize (int n) r enc d h = read_node-int m d n r enc
    read_node-serialize (float v) r enc d h = read_node-float m d v r enc
    read_node-serialize (string s) r enc d h = read_node-str m d s r enc
    read_node-serialize (array xs) r (small, fits, enc) d h =
        let within : ltb m (size_items xs) ≡ false = ground arith in
        rw (
          append_assoc,
          read_node-array_header m d (size_items xs) (serialize_items xs ++ r) small,
          within,
          read_items-serialize xs d r enc (omega arith),
        )
    read_node-serialize (object no_fields) r enc d h =
        rw append_assoc (read_node-map_header m d 0 r (omega arith) ∙ read_map-empty m d r)
    read_node-serialize (object (field k v fs)) r (small, fits, enc) d h =
        let entries =
          read_fields-serialize (field k v fs) no_fields d r enc (omega arith)
            (FieldsApart-nil (field k v fs)) in
        rw append_assoc (
          read_node-map_header m d (suc (size_fields fs)) (serialize_fields (field k v fs) ++ r)
            small
          ∙ rw append_assoc (
              read_map-fields m d (suc (size_fields fs)) k
                ((serialize_node v ++ serialize_fields fs) ++ r) r _ (omega arith) fits
                (rw append_assoc at entries)))
    read_node-serialize (int_map no_entries) r enc d h =
        rw append_assoc (read_node-map_header m d 0 r (omega arith) ∙ read_map-empty m d r)
    read_node-serialize (int_map (entry k v es)) r (small, fits, enc) d h =
        let entries =
          read_entries-serialize (entry k v es) no_entries d r enc (omega arith)
            (EntriesApart-nil (entry k v es)) in
        rw append_assoc (
          read_node-map_header m d (suc (size_entries es)) (serialize_entries (entry k v es) ++ r)
            small
          ∙ rw append_assoc (
              read_map-entries m d (suc (size_entries es)) k
                ((serialize_node v ++ serialize_entries es) ++ r) r _ enc.0 (omega arith) fits
                (rw append_assoc at entries)))
    read_node-serialize (binary s) r enc d h = read_node-bin m d s r enc

    read_items-serialize :
        (xs : Items) (d : ℕ) (r : Bytes)
        → ItemsEncodable m xs
        → levels_items xs ≤ d
        → read_items (read_node m d) (size_items xs) (serialize_items xs ++ r)
          ≡ ok (canon_items xs) r
    read_items-serialize no_items d r enc h = refl
    read_items-serialize (item v xs) d r (enc, encs) h =
        let first_read =
          from_suc (GivenBack v (serialize_items xs ++ r)) (levels v)
            (read_node-serialize v (serialize_items xs ++ r) enc) (levels_pos v) d (omega arith) in
        rw (append_assoc, first_read, read_items-serialize xs d r encs (omega arith))

    read_fields-serialize :
        (fs acc : Fields) (d : ℕ) (r : Bytes)
        → FieldsEncodable m fs
        → levels_fields fs ≤ d
        → FieldsApart acc fs
        → read_fields (read_node m d) (size_fields fs) acc (serialize_fields fs ++ r)
          ≡ ok (append_fields acc (canon_fields fs)) r
    read_fields-serialize no_fields acc d r enc h apart =
        read_fields-zero m d r acc ∙ ap (λ fs. ok fs r) (sym (append_fields-nil acc))
    read_fields-serialize (field k v fs) acc d r (len, new, enc, encs) h apart =
        let more = serialize_fields fs ++ r in
        let key =
          from_suc
            (λ d.
              read_node m d (write_msgpack_str k ++ (serialize_node v ++ more))
              ≡ ok (string k) (serialize_node v ++ more))
            (levels v) (λ d _. read_node-str m d k (serialize_node v ++ more) len) (levels_pos v) d
            (omega arith) in
        let val =
          from_suc (GivenBack v more) (levels v) (read_node-serialize v more enc) (levels_pos v) d
            (omega arith) in
        let acc' = append_fields acc (field k (canon v) no_fields) in
        let rest =
          read_fields-serialize fs acc' d r encs (omega arith)
            (FieldsApart-snoc k (canon v) acc fs apart.1 new) in
        rw (append_assoc, append_assoc)
          (read_fields-step m d (size_fields fs) k (serialize_node v ++ more) more (canon v) acc key
              val
            ∙ rw (put_field-new k (canon v) acc apart.0, rest, append_fields_assoc))

    read_entries-serialize :
        (es acc : Entries) (d : ℕ) (r : Bytes)
        → EntriesEncodable m es
        → levels_entries es ≤ d
        → EntriesApart acc es
        → read_entries (read_node m d) (size_entries es) acc (serialize_entries es ++ r)
          ≡ ok (append_entries acc (canon_entries es)) r
    read_entries-serialize no_entries acc d r enc h apart =
        read_entries-zero m d r acc ∙ ap (λ es. ok es r) (sym (append_entries-nil acc))
    read_entries-serialize (entry k v es) acc d r (word, new, enc, encs) h apart =
        let more = serialize_entries es ++ r in
        let key =
          from_suc
            (λ d.
              read_node m d (write_msgpack_int k ++ (serialize_node v ++ more))
              ≡ ok (int k) (serialize_node v ++ more))
            (levels v) (λ d _. read_node-int m d k (serialize_node v ++ more) word) (levels_pos v) d
            (omega arith) in
        let val =
          from_suc (GivenBack v more) (levels v) (read_node-serialize v more enc) (levels_pos v) d
            (omega arith) in
        let acc' = append_entries acc (entry k (canon v) no_entries) in
        let rest =
          read_entries-serialize es acc' d r encs (omega arith)
            (EntriesApart-snoc k (canon v) acc es apart.1 new) in
        rw (append_assoc, append_assoc)
          (read_entries-step m d (size_entries es) k (serialize_node v ++ more) more (canon v) acc
              key val
            ∙ rw (put_entry-new k (canon v) acc apart.0, rest, append_entries_assoc))

-- Reading the encoding of an encodable value off the front of any input, with enough levels left,
-- gives the value, with its empty int maps turned into empty objects, and leaves the rest of the
-- input.
pub read_node-serialize_node :
    (m : ℕ) (v : DataNode) (d : ℕ) (r : Bytes)
    → IsEncodable m v
    → levels v ≤ d
    → read_node m d (serialize_node v ++ r) ≡ ok (canon v) r
read_node-serialize_node m v d r enc h =
    from_suc (λ d. read_node m d (serialize_node v ++ r) ≡ ok (canon v) r) (levels v)
      (read_node-serialize m v r enc) (levels_pos v) d h

read_node-nil : (m : ℕ) → read_node m (k_max_depth + 1) [] ≡ rejected
unfolding read_node require has
read_node-nil m = refl

-- A run of the reader that consumes its input is a parse.
pub parse-read_node :
    (m : ℕ) (bytes : Bytes) (v : DataNode)
    → read_node m (k_max_depth + 1) bytes ≡ ok v []
    → msg_pack_parse m bytes ≡ ok v []
unfolding finish
parse-read_node m [] v h = cc (h, read_node-nil m)
parse-read_node m (b ∷ r) v h = rw (msg_pack_parse-cons, h)

-- Whatever encodable value is serialized, nested at most 256 deep, the parser with the same limit on
-- elements accepts the bytes and returns the value, with its empty int maps turned into empty
-- objects; int maps with entries, whose keys are integers, are accepted and come back as they are.
pub parse-serialize :
    (m : ℕ) (v : DataNode)
    → IsEncodable m v
    → levels v ≤ k_max_depth + 1
    → msg_pack_parse m (msg_pack_serialize v) ≡ ok (canon v) []
parse-serialize m v enc h =
    let whole = read_node-serialize_node m v (k_max_depth + 1) [] enc h in
    rw msg_pack_serialize_lem
      (parse-read_node m (serialize_node v) (canon v) (rw append-nil at whole))
