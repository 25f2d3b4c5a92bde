-- ===== src/Nodes.antt =====
-- src/data/data_node.cpp: the operations on a node: copy, comparison, and the helpers for objects,
-- int maps and arrays. `Node` is the node that an operation works on: the value it holds, its
-- mutation counter, and the nodes that were given to `Decref` (the last one first).
pub mod Objects
pub mod IntMaps
pub mod Arrays
pub mod Copies
pub mod Merge
pub mod Weights
pub mod Owned
mod Tests
use async.Base.{
  ℕ, zero, suc, ◌+◌, ◌%◌, ◌^◌, Bool, true, false, not, ◌&&◌, ◌||◌, List, [], ◌∷◌, ◌++◌, Option,
  none, some, ltb, ◌==◌, if◌then◌else◌, Bytes, bytes_eq,
}
use async.Data.{
  DataNode, Items, Fields, Entries, null, bool, int, float, string, array, object, int_map, binary,
  no_items, item, no_fields, field, no_entries, entry, size_items, size_fields, size_entries,
  has_field, has_entry, put_field, put_entry,
}

pub record Node : Type 0 where
  pub value : DataNode
  pub version : ℕ
  pub dropped : List DataNode

-- `version++` on 24 bits.
abbrev pub bump : ℕ → ℕ
bump version = (version + 1) % 2 ^ 24

-- `MakeString(const char*)`: the characters up to the first NUL.
unfoldable pub c_str : Bytes → Bytes
c_str [] = []
c_str (c ∷ s) = if c == 0 then [] else c ∷ c_str s

-- `DeepCopy`
unfoldable mutual
  pub deep_copy : DataNode → DataNode
  deep_copy null = null
  deep_copy (bool b) = bool b
  deep_copy (int v) = int v
  deep_copy (float v) = float v
  deep_copy (string s) = string (c_str s)
  deep_copy (array xs) = array (copy_items xs)
  deep_copy (object fs) = object (copy_fields fs no_fields)
  deep_copy (int_map es) = int_map (copy_entries es no_entries)
  deep_copy (binary b) = binary b

  pub copy_items : Items → Items
  copy_items no_items = no_items
  copy_items (item v xs) = item (deep_copy v) (copy_items xs)

  -- The loop with `ObjInsert`, on the object built so far.
  pub copy_fields : Fields → Fields → Fields
  copy_fields no_fields made = made
  copy_fields (field k v fs) made = copy_fields fs (put_field k (deep_copy v) made)

  pub copy_entries : Entries → Entries → Entries
  copy_entries no_entries made = made
  copy_entries (entry k v es) made = copy_entries es (put_entry k (deep_copy v) made)

-- `find` in a map.
unfoldable pub find_field : Bytes → Fields → Option DataNode
find_field k no_fields = none
find_field k (field j v fs) = if bytes_eq j k then some v else find_field k fs

unfoldable pub find_entry : ℕ → Entries → Option DataNode
find_entry k no_entries = none
find_entry k (entry j v es) = if j == k then some v else find_entry k es

-- `==` of two `double`s: a NaN equals nothing, and the zeros are equal.
unfoldable pub is_nan : ℕ → Bool
is_nan v = ltb 0x7ff0000000000000 (v % 2 ^ 63)

unfoldable pub float_eq : ℕ → ℕ → Bool
unfolding is_nan
float_eq v w =
    not (is_nan v) && not (is_nan w) && ((v == w) || ((v % 2 ^ 63 == 0) && (w % 2 ^ 63 == 0)))

abbrev bool_eq : Bool → Bool → Bool
bool_eq true b = b
bool_eq false b = not b

-- `Equals` with a node that is there; a difference of the types is the last clause.
unfoldable mutual
  unfolding float_eq find_field find_entry

  pub equals : DataNode → DataNode → Bool
  equals null null = true
  equals (bool a) (bool b) = bool_eq a b
  equals (int v) (int w) = v == w
  equals (float v) (float w) = float_eq v w
  equals (string s) (string t) = bytes_eq s t
  equals (array xs) (array ys) = (size_items xs == size_items ys) && equals_items xs ys
  equals (object fs) (object gs) = (size_fields fs == size_fields gs) && equals_fields fs gs
  equals (int_map es) (int_map ds) = (size_entries es == size_entries ds) && equals_entries es ds
  equals (binary b) (binary c) = bytes_eq b c
  equals _ _ = false

  pub equals_items : Items → Items → Bool
  equals_items no_items ys = true
  equals_items (item v xs) no_items = false
  equals_items (item v xs) (item w ys) = equals v w && equals_items xs ys

  pub equals_fields : Fields → Fields → Bool
  equals_fields no_fields gs = true
  equals_fields (field k v fs) gs =
      elim (find_field k gs) [ none ↦ false | some w ↦ equals v w ] && equals_fields fs gs

  pub equals_entries : Entries → Entries → Bool
  equals_entries no_entries ds = true
  equals_entries (entry k v es) ds =
      elim (find_entry k ds) [ none ↦ false | some w ↦ equals v w ] && equals_entries es ds
