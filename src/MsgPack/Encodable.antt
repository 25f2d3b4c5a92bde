-- ===== src/MsgPack/Encodable.antt =====
-- Which values the format carries, and what it makes of them.
use async.Base.{ℕ, suc, ◌^◌, ◌≤◌, ◌<◌, ◌≡◌, max, false, length}
use async.Data.{
  DataNode, Items, Fields, Entries, null, bool, int, float, string, array, object, int_map, binary,
  no_items, item, no_fields, field, no_entries, entry, size_items, size_fields, size_entries,
  has_field, has_entry,
}

-- An empty map is written alike for both kinds of map, and is read as an object.
abbrev pub canon_map : Entries → DataNode
canon_map no_entries = object no_fields
canon_map (entry k v es) = int_map (entry k v es)

unfoldable mutual
  pub canon : DataNode → DataNode
  canon null = null
  canon (bool b) = bool b
  canon (int n) = int n
  canon (float v) = float v
  canon (string s) = string s
  canon (array xs) = array (canon_items xs)
  canon (object fs) = object (canon_fields fs)
  canon (int_map es) = canon_map (canon_entries es)
  canon (binary s) = binary s

  pub canon_items : Items → Items
  canon_items no_items = no_items
  canon_items (item v xs) = item (canon v) (canon_items xs)

  pub canon_fields : Fields → Fields
  canon_fields no_fields = no_fields
  canon_fields (field k v fs) = field k (canon v) (canon_fields fs)

  pub canon_entries : Entries → Entries
  canon_entries no_entries = no_entries
  canon_entries (entry k v es) = entry k (canon v) (canon_entries es)

-- The levels of nesting, a scalar's being 1. A key counts as a scalar below its map.
unfoldable mutual
  pub levels : DataNode → ℕ
  levels (array xs) = suc (levels_items xs)
  levels (object fs) = suc (levels_fields fs)
  levels (int_map es) = suc (levels_entries es)
  levels _ = 1

  pub levels_items : Items → ℕ
  levels_items no_items = 0
  levels_items (item v xs) = max (levels v) (levels_items xs)

  pub levels_fields : Fields → ℕ
  levels_fields no_fields = 0
  levels_fields (field k v fs) = max (levels v) (levels_fields fs)

  pub levels_entries : Entries → ℕ
  levels_entries no_entries = 0
  levels_entries (entry k v es) = max (levels v) (levels_entries es)

-- Numbers are words, strings and containers fit into 32 bits of size, containers into the parser's
-- limit, and a map holds a key once.
unfoldable mutual
  pub IsEncodable : (max_elements : ℕ) → DataNode → Type 0
  IsEncodable m null = Unit
  IsEncodable m (bool b) = Unit
  IsEncodable m (int n) = n < 2 ^ 64
  IsEncodable m (float v) = v < 2 ^ 64
  IsEncodable m (string s) = length s < 2 ^ 32
  IsEncodable m (array xs) = (size_items xs < 2 ^ 32) × (size_items xs ≤ m) × ItemsEncodable m xs
  IsEncodable m (object fs) =
      (size_fields fs < 2 ^ 32) × (size_fields fs ≤ m) × FieldsEncodable m fs
  IsEncodable m (int_map es) =
      (size_entries es < 2 ^ 32) × (size_entries es ≤ m) × EntriesEncodable m es
  IsEncodable m (binary s) = length s < 2 ^ 32

  pub ItemsEncodable : (max_elements : ℕ) → Items → Type 0
  ItemsEncodable m no_items = Unit
  ItemsEncodable m (item v xs) = IsEncodable m v × ItemsEncodable m xs

  pub FieldsEncodable : (max_elements : ℕ) → Fields → Type 0
  FieldsEncodable m no_fields = Unit
  FieldsEncodable m (field k v fs) =
      (length k < 2 ^ 32) × (has_field k fs ≡ false) × IsEncodable m v × FieldsEncodable m fs

  pub EntriesEncodable : (max_elements : ℕ) → Entries → Type 0
  EntriesEncodable m no_entries = Unit
  EntriesEncodable m (entry k v es) =
      (k < 2 ^ 64) × (has_entry k es ≡ false) × IsEncodable m v × EntriesEncodable m es
