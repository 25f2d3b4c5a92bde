-- ===== src/DataHandles/Tests.antt =====
-- Casts and reads through a handle, and the theorems at concrete nodes.
use async.Base.{◌≡◌, refl, true, ◌&&◌, [], ◌∷◌, some, ◌==◌, ltb, if◌then◌else◌, bytes_eq, ◌^◌, ◌-◌}
use async.Data.{
  int, bool, array, object, int_map, no_items, item, no_fields, field, no_entries, entry,
}
use async.Nodes.{Node, c_str}
use async.DataHandles.{type_null, array_length}
use async.DataHandles.Casts.{float_to_int, int_to_float, bit_length}
use async.Base.{length, ◌≤◌, false, ◌-◌}
use async.Json.{data_serialize_json}
use async.DataHandles.Serialize.{in_buffer, text_of, serialize, serialize_to_string, serialize_lem}
use async.DataHandles.Laws.{object_setters_lem, int_map_setters_lem, array_setters_lem}
use async.DataHandles.Getters.{
  get_string, get_int, get_float, get_bool, member_type, int_map_get_string, int_map_get_int,
  int_map_get_float, int_map_get_bool, int_map_member_type, array_get_string, array_get_int,
  array_get_float, array_get_bool, array_member_type,
}
use async.DataHandles.Setters.{
  set_string, set_int, set_float, set_bool, set_null, int_map_set_string, int_map_set_int,
  int_map_set_float, int_map_set_bool, int_map_set_null, array_set_string, array_set_int,
  array_set_float, array_set_bool, array_set_null,
}

-- 1, -1, 0.5, 2 ^ 53 + 1 and -2 ^ 63.
casts :
    (int_to_float 1 ≡ 0x3ff0000000000000)
    × (int_to_float (2 ^ 64 - 1) ≡ 0xbff0000000000000)
    × (float_to_int (λ v. 0) 0x3fe0000000000000 ≡ 0)
    × (int_to_float (2 ^ 53 - 1) ≡ 0x433fffffffffffff)
    × (int_to_float 0x20000000000001 ≡ 0x4340000000000000)
    × (int_to_float (2 ^ 63) ≡ 0xc3e0000000000000)
unfolding int_to_float float_to_int bit_length
casts = (refl, refl, refl, refl, refl, refl)

abbrev an_object : Node
an_object = record {
  value = object (field (b'a' ∷ []) (int 1) (field (b'b' ∷ []) (bool true) no_fields));
  version = 0;
  dropped = [];
}

abbrev an_int_map : Node
an_int_map = record { value = int_map (entry 5 (int 1) no_entries); version = 0; dropped = [] }

abbrev an_array : Node
an_array = record {
  value = array (item (int 1) (item (int 2) no_items));
  version = 0;
  dropped = [];
}

object_setters_example :
    (get_string (b'b' ∷ []) (set_string (b'a' ∷ []) (b'x' ∷ []) (some an_object)) ≡ (
      if bytes_eq (c_str (b'a' ∷ [])) (c_str (b'b' ∷ []))
      then c_str (b'x' ∷ [])
      else get_string (b'b' ∷ []) (some an_object)))
    × (get_int (λ v. 0) (b'b' ∷ []) (set_int (b'a' ∷ []) 7 (some an_object)) ≡ (
        if bytes_eq (c_str (b'a' ∷ [])) (c_str (b'b' ∷ []))
        then 7
        else get_int (λ v. 0) (b'b' ∷ []) (some an_object)))
    × (get_float (b'b' ∷ []) (set_float (b'a' ∷ []) 0x3ff0000000000000 (some an_object)) ≡ (
        if bytes_eq (c_str (b'a' ∷ [])) (c_str (b'b' ∷ []))
        then 0x3ff0000000000000
        else get_float (b'b' ∷ []) (some an_object)))
    × (get_bool (b'b' ∷ []) (set_bool (b'a' ∷ []) true (some an_object)) ≡ (
        if bytes_eq (c_str (b'a' ∷ [])) (c_str (b'b' ∷ []))
        then true
        else get_bool (b'b' ∷ []) (some an_object)))
    × (member_type (b'b' ∷ []) (set_null (b'a' ∷ []) (some an_object)) ≡ (
        if bytes_eq (c_str (b'a' ∷ [])) (c_str (b'b' ∷ []))
        then type_null
        else member_type (b'b' ∷ []) (some an_object)))
object_setters_example =
    object_setters_lem (λ v. 0) an_object (b'a' ∷ []) (b'b' ∷ []) (b'x' ∷ []) 7 0x3ff0000000000000
      true refl

int_map_setters_example :
    (int_map_get_string 6 (int_map_set_string 5 (b'x' ∷ []) (some an_int_map))
      ≡ (if 5 == 6 then c_str (b'x' ∷ []) else int_map_get_string 6 (some an_int_map)))
    × (int_map_get_int (λ v. 0) 6 (int_map_set_int 5 7 (some an_int_map))
        ≡ (if 5 == 6 then 7 else int_map_get_int (λ v. 0) 6 (some an_int_map)))
    × (int_map_get_float 6 (int_map_set_float 5 0x3ff0000000000000 (some an_int_map))
        ≡ (if 5 == 6 then 0x3ff0000000000000 else int_map_get_float 6 (some an_int_map)))
    × (int_map_get_bool 6 (int_map_set_bool 5 true (some an_int_map))
        ≡ (if 5 == 6 then true else int_map_get_bool 6 (some an_int_map)))
    × (int_map_member_type 6 (int_map_set_null 5 (some an_int_map))
        ≡ (if 5 == 6 then type_null else int_map_member_type 6 (some an_int_map)))
int_map_setters_example =
    int_map_setters_lem (λ v. 0) an_int_map 5 6 (b'x' ∷ []) 7 0x3ff0000000000000 true refl

array_setters_example :
    (array_get_string 0 (array_set_string 1 (b'x' ∷ []) (some an_array)) ≡ (
      if ltb 1 (array_length (some an_array)) && (1 == 0)
      then c_str (b'x' ∷ [])
      else array_get_string 0 (some an_array)))
    × (array_get_int (λ v. 0) 0 (array_set_int 1 7 (some an_array)) ≡ (
        if ltb 1 (array_length (some an_array)) && (1 == 0)
        then 7
        else array_get_int (λ v. 0) 0 (some an_array)))
    × (array_get_float 0 (array_set_float 1 0x3ff0000000000000 (some an_array)) ≡ (
        if ltb 1 (array_length (some an_array)) && (1 == 0)
        then 0x3ff0000000000000
        else array_get_float 0 (some an_array)))
    × (array_get_bool 0 (array_set_bool 1 true (some an_array)) ≡ (
        if ltb 1 (array_length (some an_array)) && (1 == 0)
        then true
        else array_get_bool 0 (some an_array)))
    × (array_member_type 0 (array_set_null 1 (some an_array)) ≡ (
        if ltb 1 (array_length (some an_array)) && (1 == 0)
        then type_null
        else array_member_type 0 (some an_array)))
array_setters_example =
    array_setters_lem (λ v. 0) an_array 1 0 (b'x' ∷ []) 7 0x3ff0000000000000 true

serialize_example :
    ((serialize (λ p v. []) (λ t. 0) 2 false (some an_array)).0
      ≡ in_buffer 2
          (text_of (λ n. data_serialize_json (λ p v. []) (λ t. 0) n.value false) (some an_array)))
    × (length (serialize (λ p v. []) (λ t. 0) 2 false (some an_array)).0 ≤ 2)
    × ((serialize (λ p v. []) (λ t. 0) 2 false (some an_array)).1 ≡ (
        if ltb (length (serialize_to_string (λ p v. []) (λ t. 0) false (some an_array))) 2
        then length (serialize_to_string (λ p v. []) (λ t. 0) false (some an_array))
        else 2 - 1))
serialize_example = serialize_lem (λ p v. []) (λ t. 0) 2 false (some an_array)
