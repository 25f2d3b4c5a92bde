-- ===== src/Iterators.antt =====
-- src/data/data_iterator.h and data_iterator.cpp: iteration over an object or an int map. The
-- iterator of the library is the number of entries in front of it, which stands for it as long as the
-- container is not changed. The node is the one that the iterator was made for; that its reference
-- keeps the node alive is not modelled.
pub mod Objects
pub mod IntMaps
mod Tests
use async.Base.{
  ℕ, zero, suc, ◌+◌, Bool, true, false, not, Option, none, some, ◌==◌, if◌then◌else◌, [], Bytes,
}
use async.Data.{
  DataNode, Fields, Entries, no_fields, field, no_entries, entry, null, bool, int, float, string,
  array, object, int_map, binary,
}
use async.Nodes.{Node, c_str}

pub data IteratorType : Type 0 where
  over_object over_int_map : IteratorType

pub record DataIterator : Type 0 where
  pub type : IteratorType
  pub version : ℕ
  pub position : ℕ
  pub obj_key : Option Bytes
  pub intmap_key : ℕ
  pub value : Option DataNode

abbrev pub fresh : IteratorType → ℕ → DataIterator
fresh type version = record {
  type = type;
  version = version;
  position = 0;
  obj_key = none;
  intmap_key = 0;
  value = none;
}

-- `CreateObject` and `CreateIntMap`; the node is `none` for `nullptr`.
unfoldable pub create_object : Option Node → Option DataIterator
create_object none = none
create_object (some n) = elim n.value [ object fs ↦ some (fresh over_object n.version) | _ ↦ none ]

unfoldable pub create_int_map : Option Node → Option DataIterator
create_int_map none = none
create_int_map (some n) = elim n.value [
  | int_map es ↦ some (fresh over_int_map n.version)
  | _ ↦ none
]

-- The entry at a position, `none` at the end.
unfoldable pub field_at : ℕ → Fields → Option (Bytes × DataNode)
field_at i no_fields = none
field_at zero (field k v fs) = some (k, v)
field_at (suc i) (field k v fs) = field_at i fs

unfoldable pub entry_at : ℕ → Entries → Option (ℕ × DataNode)
entry_at i no_entries = none
entry_at zero (entry k v es) = some (k, v)
entry_at (suc i) (entry k v es) = entry_at i es

abbrev pub step_object : DataIterator → Option (Bytes × DataNode) → DataIterator × Bool
step_object it none = (it, false)
step_object it (some (k, v)) =
    (record it { position = it.position + 1; obj_key = some k; value = some v }, true)

abbrev pub step_int_map : DataIterator → Option (ℕ × DataNode) → DataIterator × Bool
step_int_map it none = (it, false)
step_int_map it (some (k, v)) =
    (record it { position = it.position + 1; intmap_key = k; value = some v }, true)

-- What is iterated over: the entries of the container of the iterator's kind.
abbrev pub advance : IteratorType → DataNode → DataIterator → DataIterator × Bool
advance over_object (object fs) it = step_object it (field_at it.position fs)
advance over_int_map (int_map es) it = step_int_map it (entry_at it.position es)
advance _ _ it = (it, false)

-- `Next`
unfoldable pub next : Node → DataIterator → DataIterator × Bool
next n it = if not (n.version == it.version) then (it, false) else advance it.type n.value it

abbrev pub key_or_empty : Option Bytes → Bytes
key_or_empty none = []
key_or_empty (some k) = c_str k

abbrev pub object_key : DataIterator → Bytes
object_key it = key_or_empty it.obj_key

abbrev pub int_map_key : DataIterator → ℕ
int_map_key it = it.intmap_key
