-- ===== src/MsgPack/RoundTrip/Loops.antt =====
-- A map that is read in full, and one round of the loops over its entries.
use async.Base.{ℕ, suc, ◌^◌, ◌≤◌, ◌<◌, ◌≡◌, refl, ◌∙◌, ◌++◌, Bytes, arith, false, ltb, ◌==◌}
use async.Data.{
  DataNode, Fields, Entries, int, string, object, int_map, no_fields, no_entries, put_field,
  put_entry,
}
use async.MsgPack.Write.{write_msgpack_str, write_msgpack_int}
use async.MsgPack.Reader.{ok, Reader}
use async.MsgPack.Read.{
  int_key, string_key, read_entries, read_fields, read_keyed, read_map, read_node,
}
use async.MsgPack.Keys.{peek-first, has_int_keys-int, has_str_keys-str}

module _ (m d : ℕ) where
  abbrev pub rec : Reader DataNode
  rec = read_node m d

  -- A map whose entries are read in full.
  pub read_map-fields :
      (n : ℕ) (k : Bytes) (more r : Bytes) (fs : Fields)
      → 0 < n
      → n ≤ m
      → read_fields rec n no_fields (write_msgpack_str k ++ more) ≡ ok fs r
      → read_map rec m n (write_msgpack_str k ++ more) ≡ ok (object fs) r
  unfolding read_map read_keyed
  read_map-fields n k more r fs pos le done =
      let (nonempty, not_int, is_str) = has_str_keys-str k more in
      let some_entries : (n == 0) ≡ false = ground arith in
      let fits : ltb m n ≡ false = ground arith in
      rw (some_entries, fits)
        (peek-first (read_keyed rec m n) (write_msgpack_str k ++ more) nonempty
          ∙ rw (not_int, is_str, done))

  pub read_map-entries :
      (n k : ℕ) (more r : Bytes) (es : Entries)
      → k < 2 ^ 64
      → 0 < n
      → n ≤ m
      → read_entries rec n no_entries (write_msgpack_int k ++ more) ≡ ok es r
      → read_map rec m n (write_msgpack_int k ++ more) ≡ ok (int_map es) r
  unfolding read_map read_keyed
  read_map-entries n k more r es word pos le done =
      let (nonempty, is_int) = has_int_keys-int k more word in
      let some_entries : (n == 0) ≡ false = ground arith in
      let fits : ltb m n ≡ false = ground arith in
      rw (some_entries, fits)
        (peek-first (read_keyed rec m n) (write_msgpack_int k ++ more) nonempty ∙ rw (is_int, done))

  pub read_map-empty : (r : Bytes) → read_map rec m 0 r ≡ ok (object no_fields) r
  unfolding read_map
  read_map-empty r = refl

  pub read_fields-zero : (r : Bytes) (acc : Fields) → read_fields rec 0 acc r ≡ ok acc r
  unfolding read_fields
  read_fields-zero r acc = refl

  pub read_entries-zero : (r : Bytes) (acc : Entries) → read_entries rec 0 acc r ≡ ok acc r
  unfolding read_entries
  read_entries-zero r acc = refl

  -- One round of a loop.
  pub read_fields-step :
      (n : ℕ) (k more r : Bytes) (v : DataNode) (acc : Fields)
      → rec (write_msgpack_str k ++ more) ≡ ok (string k) more
      → rec more ≡ ok v r
      → read_fields rec (suc n) acc (write_msgpack_str k ++ more)
        ≡ read_fields rec n (put_field k v acc) r
  unfolding read_fields string_key
  read_fields-step n k more r v acc key val = rw (key, val)

  pub read_entries-step :
      (n k : ℕ) (more r : Bytes) (v : DataNode) (acc : Entries)
      → rec (write_msgpack_int k ++ more) ≡ ok (int k) more
      → rec more ≡ ok v r
      → read_entries rec (suc n) acc (write_msgpack_int k ++ more)
        ≡ read_entries rec n (put_entry k v acc) r
  unfolding read_entries int_key
  read_entries-step n k more r v acc key val = rw (key, val)
