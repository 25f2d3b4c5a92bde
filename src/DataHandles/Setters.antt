-- ===== src/DataHandles/Setters.antt =====
-- src/data/data_handle.cpp: the setters and the other changes of a node. A setter whose handle is no
-- container of its kind makes no node; `ArraySet` makes one all the same, which `ArrSet` gives up.
use async.Base.{ℕ, Bool, false, Option, none, some, Bytes}
use async.Data.{DataNode, null, bool, int, float, string, array, object, int_map, no_items, item}
use async.Nodes.{Node, c_str}
use async.Nodes.Objects.{obj_insert, obj_erase, obj_clear, obj_merge}
use async.Nodes.IntMaps.{int_map_insert, int_map_erase, int_map_clear, int_map_merge}
use async.Nodes.Arrays.{append_items, arr_set, arr_remove, arr_clear, arr_extend}

-- The body that the setters of an object share: `ObjInsert` of a new node.
unfoldable pub set_in_object : Bytes → DataNode → Option Node → Option Node
set_in_object key made none = none
set_in_object key made (some n) = elim n.value [
  | object fs ↦ some (obj_insert (c_str key) made n)
  | _ ↦ some n
]

unfoldable pub set_in_int_map : ℕ → DataNode → Option Node → Option Node
set_in_int_map key made none = none
set_in_int_map key made (some n) = elim n.value [
  | int_map es ↦ some (int_map_insert key made n)
  | _ ↦ some n
]

unfoldable pub set_in_array : ℕ → DataNode → Option Node → Option Node
set_in_array index made none = none
set_in_array index made (some n) = some (arr_set index made n)

-- `Arr().push_back` of a new node.
unfoldable pub append_to_array : DataNode → Option Node → Option Node
append_to_array made none = none
append_to_array made (some n) = elim n.value [
  | array xs ↦ some (record n { value = array (append_items xs (item made no_items)) })
  | _ ↦ some n
]

unfoldable pub set_string : Bytes → Bytes → Option Node → Option Node
unfolding set_in_object
set_string key val h = set_in_object key (string (c_str val)) h

unfoldable pub set_int : Bytes → ℕ → Option Node → Option Node
unfolding set_in_object
set_int key val h = set_in_object key (int val) h

unfoldable pub set_float : Bytes → ℕ → Option Node → Option Node
unfolding set_in_object
set_float key val h = set_in_object key (float val) h

unfoldable pub set_bool : Bytes → Bool → Option Node → Option Node
unfolding set_in_object
set_bool key val h = set_in_object key (bool val) h

unfoldable pub set_null : Bytes → Option Node → Option Node
unfolding set_in_object
set_null key h = set_in_object key null h

unfoldable pub int_map_set_string : ℕ → Bytes → Option Node → Option Node
unfolding set_in_int_map
int_map_set_string key val h = set_in_int_map key (string (c_str val)) h

unfoldable pub int_map_set_int : ℕ → ℕ → Option Node → Option Node
unfolding set_in_int_map
int_map_set_int key val h = set_in_int_map key (int val) h

unfoldable pub int_map_set_float : ℕ → ℕ → Option Node → Option Node
unfolding set_in_int_map
int_map_set_float key val h = set_in_int_map key (float val) h

unfoldable pub int_map_set_bool : ℕ → Bool → Option Node → Option Node
unfolding set_in_int_map
int_map_set_bool key val h = set_in_int_map key (bool val) h

unfoldable pub int_map_set_null : ℕ → Option Node → Option Node
unfolding set_in_int_map
int_map_set_null key h = set_in_int_map key null h

unfoldable pub array_set_string : ℕ → Bytes → Option Node → Option Node
unfolding set_in_array
array_set_string index val h = set_in_array index (string (c_str val)) h

unfoldable pub array_set_int : ℕ → ℕ → Option Node → Option Node
unfolding set_in_array
array_set_int index val h = set_in_array index (int val) h

unfoldable pub array_set_float : ℕ → ℕ → Option Node → Option Node
unfolding set_in_array
array_set_float index val h = set_in_array index (float val) h

unfoldable pub array_set_bool : ℕ → Bool → Option Node → Option Node
unfolding set_in_array
array_set_bool index val h = set_in_array index (bool val) h

unfoldable pub array_set_null : ℕ → Option Node → Option Node
unfolding set_in_array
array_set_null index h = set_in_array index null h

unfoldable pub array_append_string : Bytes → Option Node → Option Node
unfolding append_to_array
array_append_string val h = append_to_array (string (c_str val)) h

unfoldable pub array_append_int : ℕ → Option Node → Option Node
unfolding append_to_array
array_append_int val h = append_to_array (int val) h

unfoldable pub array_append_float : ℕ → Option Node → Option Node
unfolding append_to_array
array_append_float val h = append_to_array (float val) h

unfoldable pub array_append_bool : Bool → Option Node → Option Node
unfolding append_to_array
array_append_bool val h = append_to_array (bool val) h

unfoldable pub array_append_null : Option Node → Option Node
unfolding append_to_array
array_append_null h = append_to_array null h

abbrev pub remove_key : Bytes → Option Node → Option Node × Bool
remove_key key none = (none, false)
remove_key key (some n) = (some (obj_erase (c_str key) n).0, (obj_erase (c_str key) n).1)

abbrev pub int_map_remove_key : ℕ → Option Node → Option Node × Bool
int_map_remove_key key none = (none, false)
int_map_remove_key key (some n) = (some (int_map_erase key n).0, (int_map_erase key n).1)

abbrev pub array_remove : ℕ → Option Node → Option Node × Bool
array_remove index none = (none, false)
array_remove index (some n) = (some (arr_remove index n).0, (arr_remove index n).1)

abbrev pub object_clear : Option Node → Option Node
object_clear none = none
object_clear (some n) = some (obj_clear n)

abbrev pub int_map_handle_clear : Option Node → Option Node
int_map_handle_clear none = none
int_map_handle_clear (some n) = some (int_map_clear n)

abbrev pub array_clear : Option Node → Option Node
array_clear none = none
array_clear (some n) = some (arr_clear n)

abbrev pub object_merge : Option DataNode → (overwrite : Bool) → Option Node → Option Node
object_merge other overwrite none = none
object_merge other overwrite (some n) = some (obj_merge other overwrite n)

abbrev pub int_map_handle_merge : Option DataNode → (overwrite : Bool) → Option Node → Option Node
int_map_handle_merge other overwrite none = none
int_map_handle_merge other overwrite (some n) = some (int_map_merge other overwrite n)

abbrev pub array_extend : Option DataNode → Option Node → Option Node
array_extend other none = none
array_extend other (some n) = some (arr_extend other n)
