-- ===== src/DataHandles.antt =====
-- src/data/data_handle.h and data_handle.cpp: the typed view of a node that the natives work with.
-- The node of a handle is `none` for `nullptr`. A `const char*` is the memory that it points to, read
-- up to the first NUL by `c_str`.
pub mod Casts
pub mod Getters
pub mod Setters
pub mod Members
pub mod Laws
pub mod Serialize
mod Tests
use async.Base.{ℕ, Bool, Option, none, some}
use async.Data.{
  DataNode, null, bool, int, float, string, array, object, int_map, binary, size_items,
}
use async.Nodes.{Node, deep_copy}
use async.Nodes.Objects.{obj_size, obj_contains}
use async.Nodes.IntMaps.{int_map_size, int_map_contains}
use async.Nodes.{c_str}
use async.Base.{false, Bytes}

pub data Async2DataType : Type 0 where
  type_none type_null type_bool type_number type_string type_array type_object type_binary
        type_int_object :
      Async2DataType

-- `NodeToType`
abbrev pub node_to_type : Option DataNode → Async2DataType
node_to_type none = type_none
node_to_type (some null) = type_null
node_to_type (some (bool b)) = type_bool
node_to_type (some (int v)) = type_number
node_to_type (some (float v)) = type_number
node_to_type (some (string s)) = type_string
node_to_type (some (array xs)) = type_array
node_to_type (some (object fs)) = type_object
node_to_type (some (int_map es)) = type_int_object
node_to_type (some (binary b)) = type_binary

abbrev pub value_of : Option Node → Option DataNode
value_of none = none
value_of (some n) = some n.value

abbrev pub get_type : Option Node → Async2DataType
get_type h = node_to_type (value_of h)

abbrev pub object_size : Option Node → ℕ
object_size none = 0
object_size (some n) = obj_size n

abbrev pub array_length : Option Node → ℕ
array_length none = 0
array_length (some n) = elim n.value [ array xs ↦ size_items xs | _ ↦ 0 ]

abbrev pub has_key : Bytes → Option Node → Bool
has_key key none = false
has_key key (some n) = obj_contains (c_str key) n

abbrev pub int_map_handle_size : Option Node → ℕ
int_map_handle_size none = 0
int_map_handle_size (some n) = int_map_size n

abbrev pub int_map_has_key : ℕ → Option Node → Bool
int_map_has_key key none = false
int_map_has_key key (some n) = int_map_contains key n

-- `CopyNodeForSend`
abbrev pub copy_node_for_send : Node → DataNode
copy_node_for_send n = deep_copy n.value
