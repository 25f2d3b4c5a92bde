-- ===== src/Nodes/Tests.antt =====
-- Runs of the operations on nodes, and the theorems at concrete nodes.
use async.Base.{ℕ, ◌+◌, ◌≡◌, refl, false, true, List, [], ◌∷◌, some, ◌==◌, if◌then◌else◌, bytes_eq}
use async.Data.{
  Fields, Entries, DataNode, int, float, string, array, object, int_map, no_items, item, no_fields,
  field, no_entries, entry, has_field, has_entry,
}
use async.Nodes.{Node, c_str, deep_copy, equals, find_field, find_entry, is_nan, float_eq}
use async.Nodes.Objects.{obj_find, obj_merge}
use async.Nodes.IntMaps.{int_map_find, int_map_merge}
use async.Nodes.Copies.{IsPlain, deep_copy-equals}
use async.Nodes.Merge.{merged, obj_merge_lem, int_map_merge_lem}
use async.Nodes.Owned.{
  Call, call_obj_insert, call_obj_erase, call_obj_clear, run_all, weigh, given_all, run_all-weigh,
}

abbrev nested : DataNode
nested = object (
    field (b'a' ∷ []) (array (item (int 1) (item (string (b'x' ∷ [])) no_items)))
      (field (b'b' ∷ []) (int_map (entry 7 (float 0x3ff0000000000000) no_entries)) no_fields))

nested-IsPlain : IsPlain nested
unfolding IsPlain c_str has_field has_entry bytes_eq is_nan
nested-IsPlain = (refl, (tt, (refl, tt)), (refl, (refl, refl, tt), tt))

deep_copy-equals_example : (deep_copy nested ≡ nested) × (equals nested (deep_copy nested) ≡ true)
deep_copy-equals_example = deep_copy-equals nested nested-IsPlain

-- A string that holds a NUL is cut by the copy, which then does not equal it.
cut_copy :
    equals (string (b'a' ∷ 0 ∷ b'b' ∷ [])) (deep_copy (string (b'a' ∷ 0 ∷ b'b' ∷ []))) ≡ false
unfolding equals deep_copy c_str bytes_eq
cut_copy = refl

-- A NaN does not equal its copy.
nan_copy : equals (float 0x7ff8000000000000) (deep_copy (float 0x7ff8000000000000)) ≡ false
unfolding equals deep_copy float_eq is_nan
nan_copy = refl

abbrev old_fields : Fields
old_fields = field (b'a' ∷ []) (int 1) (field (b'b' ∷ []) (int 2) no_fields)

abbrev new_fields : Fields
new_fields = field (b'b' ∷ []) (int 3) (field (b'c' ∷ []) (int 4) no_fields)

abbrev old_node : Node
old_node = record { value = object old_fields; version = 5; dropped = [] }

-- The merge leaves the mutation counter as it is.
merged_version : (obj_merge (some (object new_fields)) true old_node).version ≡ 5
unfolding obj_merge
merged_version = refl

obj_merge_example :
    obj_find (b'b' ∷ []) (obj_merge (some (object new_fields)) true old_node)
    ≡ merged true (find_field (b'b' ∷ []) old_fields) (find_field (b'b' ∷ []) new_fields)
unfolding has_field bytes_eq
obj_merge_example =
    obj_merge_lem true old_fields new_fields old_node (b'b' ∷ []) refl (refl, (refl, tt))

abbrev old_entries : Entries
old_entries = entry 1 (int 1) (entry 2 (int 2) no_entries)

abbrev new_entries : Entries
new_entries = entry 2 (int 3) (entry 3 (int 4) no_entries)

int_map_merge_example :
    int_map_find 3 (
      int_map_merge
        (some (int_map new_entries))
        false
        (record { value = int_map old_entries; version = 0; dropped = [] }))
    ≡ merged false (find_entry 3 old_entries) (find_entry 3 new_entries)
unfolding has_entry
int_map_merge_example =
    int_map_merge_lem false old_entries new_entries
      (record { value = int_map old_entries; version = 0; dropped = [] }) 3 refl (refl, (refl, tt))

abbrev is_two : DataNode → ℕ
is_two v = elim v [ int n ↦ if n == 2 then 1 else 0 | _ ↦ 0 ]

abbrev calls : List Call
calls = call_obj_insert (b'b' ∷ []) (int 9) ∷ call_obj_erase (b'a' ∷ []) ∷ call_obj_clear ∷ []

run_all-weigh_example :
    weigh is_two (run_all calls old_node) ≡ weigh is_two old_node + given_all is_two calls
run_all-weigh_example = run_all-weigh is_two calls old_node
