-- ===== src/DataHandles/Getters.antt =====
-- src/data/data_handle.cpp: the getters, with the coercions between the scalar types.
use async.Base.{ℕ, ◌%◌, ◌^◌, Bool, false, not, [], Option, none, some, ◌==◌, if◌then◌else◌, Bytes}
use async.Data.{DataNode, bool, int, float, string, array, object}
use async.Nodes.{Node, c_str}
use async.Nodes.Objects.{obj_find}
use async.Nodes.IntMaps.{int_map_find}
use async.Nodes.Arrays.{item_at}
use async.DataHandles.{Async2DataType, node_to_type, value_of}
use async.DataHandles.Casts.{float_to_int, int_to_float}

-- `GetMemberNode`, `ArrayGetMemberNode` and `IntMapGetMemberNode`.
abbrev pub get_member_node : Bytes → Option Node → Option DataNode
get_member_node key none = none
get_member_node key (some n) = obj_find (c_str key) n

abbrev pub array_get_member_node : ℕ → Option Node → Option DataNode
array_get_member_node index none = none
array_get_member_node index (some n) = elim n.value [ array xs ↦ item_at index xs | _ ↦ none ]

abbrev pub int_map_get_member_node : ℕ → Option Node → Option DataNode
int_map_get_member_node key none = none
int_map_get_member_node key (some n) = int_map_find key n

abbrev pub member_type : Bytes → Option Node → Async2DataType
member_type key h = node_to_type (get_member_node key h)

abbrev pub array_member_type : ℕ → Option Node → Async2DataType
array_member_type index h = node_to_type (array_get_member_node index h)

abbrev pub int_map_member_type : ℕ → Option Node → Async2DataType
int_map_member_type key h = node_to_type (int_map_get_member_node key h)

-- The bodies that the four families of getters share.
module _ (unfit : ℕ → ℕ) where
  unfoldable pub int_of : Option DataNode → ℕ
  int_of (some (int v)) = v
  int_of (some (float v)) = float_to_int unfit v
  int_of (some (bool b)) = if b then 1 else 0
  int_of _ = 0

  abbrev pub as_int : Option Node → ℕ
  as_int h = int_of (value_of h)

  abbrev pub get_int : Bytes → Option Node → ℕ
  get_int key h = int_of (get_member_node key h)

  abbrev pub array_get_int : ℕ → Option Node → ℕ
  array_get_int index h = int_of (array_get_member_node index h)

  abbrev pub int_map_get_int : ℕ → Option Node → ℕ
  int_map_get_int key h = int_of (int_map_get_member_node key h)

unfoldable pub float_of : Option DataNode → ℕ
float_of (some (float v)) = v
float_of (some (int v)) = int_to_float v
float_of (some (bool b)) = if b then 0x3ff0000000000000 else 0
float_of _ = 0

unfoldable pub bool_of : Option DataNode → Bool
bool_of (some (bool b)) = b
bool_of (some (int v)) = not (v == 0)
bool_of (some (float v)) = not (v % 2 ^ 63 == 0)
bool_of _ = false

unfoldable pub string_of : Option DataNode → Bytes
string_of (some (string s)) = c_str s
string_of _ = []

abbrev pub object_of : Option DataNode → Option DataNode
object_of (some (object fs)) = some (object fs)
object_of _ = none

abbrev pub array_of : Option DataNode → Option DataNode
array_of (some (array xs)) = some (array xs)
array_of _ = none

abbrev pub as_float : Option Node → ℕ
as_float h = float_of (value_of h)

abbrev pub as_bool : Option Node → Bool
as_bool h = bool_of (value_of h)

abbrev pub as_string : Option Node → Bytes
as_string h = string_of (value_of h)

abbrev pub get_float : Bytes → Option Node → ℕ
get_float key h = float_of (get_member_node key h)

abbrev pub get_bool : Bytes → Option Node → Bool
get_bool key h = bool_of (get_member_node key h)

abbrev pub get_string : Bytes → Option Node → Bytes
get_string key h = string_of (get_member_node key h)

abbrev pub get_object_node : Bytes → Option Node → Option DataNode
get_object_node key h = object_of (get_member_node key h)

abbrev pub get_array_node : Bytes → Option Node → Option DataNode
get_array_node key h = array_of (get_member_node key h)

abbrev pub array_get_float : ℕ → Option Node → ℕ
array_get_float index h = float_of (array_get_member_node index h)

abbrev pub array_get_bool : ℕ → Option Node → Bool
array_get_bool index h = bool_of (array_get_member_node index h)

abbrev pub array_get_string : ℕ → Option Node → Bytes
array_get_string index h = string_of (array_get_member_node index h)

abbrev pub array_get_node : ℕ → Option Node → Option DataNode
array_get_node index h = array_get_member_node index h

abbrev pub int_map_get_float : ℕ → Option Node → ℕ
int_map_get_float key h = float_of (int_map_get_member_node key h)

abbrev pub int_map_get_bool : ℕ → Option Node → Bool
int_map_get_bool key h = bool_of (int_map_get_member_node key h)

abbrev pub int_map_get_string : ℕ → Option Node → Bytes
int_map_get_string key h = string_of (int_map_get_member_node key h)

abbrev pub int_map_get_object_node : ℕ → Option Node → Option DataNode
int_map_get_object_node key h = object_of (int_map_get_member_node key h)

abbrev pub int_map_get_array_node : ℕ → Option Node → Option DataNode
int_map_get_array_node key h = array_of (int_map_get_member_node key h)
