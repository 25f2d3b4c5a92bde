-- ===== src/DataHandles/Laws.antt =====
-- What is read back through a handle after a change through it.
use async.Base.{
  ℕ, ◌≡◌, ◌&&◌, ltb, ap, ◌∙◌, Bool, Option, some, ◌==◌, if◌then◌else◌, Bytes, bytes_eq,
}
use async.Data.{DataNode, null, bool, int, float, string}
use async.Nodes.{Node, c_str}
use async.DataHandles.{
  node_to_type, type_null, type_object, type_int_object, get_type, array_length,
}
use async.DataHandles.Getters.{
  get_member_node, array_get_member_node, int_map_get_member_node, string_of, int_of, float_of,
  bool_of, get_string, get_int, get_float, get_bool, member_type, int_map_get_string,
  int_map_get_int, int_map_get_float, int_map_get_bool, int_map_member_type, array_get_string,
  array_get_int, array_get_float, array_get_bool, array_member_type,
}
use async.DataHandles.Setters.{
  set_string, set_int, set_float, set_bool, set_null, int_map_set_string, int_map_set_int,
  int_map_set_float, int_map_set_bool, int_map_set_null, array_set_string, array_set_int,
  array_set_float, array_set_bool, array_set_null,
}
use async.DataHandles.Members.{
  c_str-idempotent, when, get_member_node-set, int_map_get_member_node-set,
  array_get_member_node-set,
}

-- What a reader makes of a value that is new where the test holds.
read_back {ℓ} :
    {A : Type ℓ} (read : Option DataNode → A) (b : Bool) (v : DataNode)
    (after before : Option DataNode)
    → after ≡ (if b then some v else before)
    → read after ≡ (if b then read (some v) else read before)
read_back read b v after before e = ap read e ∙ when read b (some v) before

-- What the getters of an object find after its setters: the value that was set under the key, a
-- string up to its first NUL, and under every other key what they found before.
pub object_setters_lem :
    (unfit : ℕ → ℕ) (n : Node) (key j : Bytes) (s : Bytes) (i f : ℕ) (b : Bool)
    → get_type (some n) ≡ type_object
    → (get_string j (set_string key s (some n))
        ≡ (if bytes_eq (c_str key) (c_str j) then c_str s else get_string j (some n)))
      × (get_int unfit j (set_int key i (some n))
          ≡ (if bytes_eq (c_str key) (c_str j) then i else get_int unfit j (some n)))
      × (get_float j (set_float key f (some n))
          ≡ (if bytes_eq (c_str key) (c_str j) then f else get_float j (some n)))
      × (get_bool j (set_bool key b (some n))
          ≡ (if bytes_eq (c_str key) (c_str j) then b else get_bool j (some n)))
      × (member_type j (set_null key (some n))
          ≡ (if bytes_eq (c_str key) (c_str j) then type_null else member_type j (some n)))
unfolding set_string set_int set_float set_bool set_null string_of int_of float_of bool_of
object_setters_lem unfit n key j s i f b t = (
  read_back string_of (bytes_eq (c_str key) (c_str j)) (string (c_str s)) _ _
        (get_member_node-set n key j (string (c_str s)) t)
      ∙ ap
          (λ r.
            if bytes_eq (c_str key) (c_str j) then r else string_of (get_member_node j (some n)))
          (c_str-idempotent s),
  read_back (int_of unfit) (bytes_eq (c_str key) (c_str j)) (int i) _ _
      (get_member_node-set n key j (int i) t),
  read_back float_of (bytes_eq (c_str key) (c_str j)) (float f) _ _
      (get_member_node-set n key j (float f) t),
  read_back bool_of (bytes_eq (c_str key) (c_str j)) (bool b) _ _
      (get_member_node-set n key j (bool b) t),
  read_back node_to_type (bytes_eq (c_str key) (c_str j)) (null) _ _
      (get_member_node-set n key j (null) t),
)

-- What the getters of an int map find after its setters: the value that was set under the key, a
-- string up to its first NUL, and under every other key what they found before.
pub int_map_setters_lem :
    (unfit : ℕ → ℕ) (n : Node) (key j : ℕ) (s : Bytes) (i f : ℕ) (b : Bool)
    → get_type (some n) ≡ type_int_object
    → (int_map_get_string j (int_map_set_string key s (some n))
        ≡ (if key == j then c_str s else int_map_get_string j (some n)))
      × (int_map_get_int unfit j (int_map_set_int key i (some n))
          ≡ (if key == j then i else int_map_get_int unfit j (some n)))
      × (int_map_get_float j (int_map_set_float key f (some n))
          ≡ (if key == j then f else int_map_get_float j (some n)))
      × (int_map_get_bool j (int_map_set_bool key b (some n))
          ≡ (if key == j then b else int_map_get_bool j (some n)))
      × (int_map_member_type j (int_map_set_null key (some n))
          ≡ (if key == j then type_null else int_map_member_type j (some n)))
unfolding int_map_set_string int_map_set_int int_map_set_float int_map_set_bool int_map_set_null
    string_of int_of float_of bool_of
int_map_setters_lem unfit n key j s i f b t = (
  read_back string_of (key == j) (string (c_str s)) _ _
        (int_map_get_member_node-set n key j (string (c_str s)) t)
      ∙ ap (λ r. if key == j then r else string_of (int_map_get_member_node j (some n)))
          (c_str-idempotent s),
  read_back (int_of unfit) (key == j) (int i) _ _ (int_map_get_member_node-set n key j (int i) t),
  read_back float_of (key == j) (float f) _ _ (int_map_get_member_node-set n key j (float f) t),
  read_back bool_of (key == j) (bool b) _ _ (int_map_get_member_node-set n key j (bool b) t),
  read_back node_to_type (key == j) (null) _ _ (int_map_get_member_node-set n key j (null) t),
)

-- What the getters of a node find after the setters of an array: the new value where the index is in
-- range, which it never is for a node that is no array, and everywhere else what they found before.
pub array_setters_lem :
    (unfit : ℕ → ℕ) (n : Node) (key j : ℕ) (s : Bytes) (i f : ℕ) (b : Bool)
    → (array_get_string j (array_set_string key s (some n)) ≡ (
        if ltb key (array_length (some n)) && (key == j)
        then c_str s
        else array_get_string j (some n)))
      × (array_get_int unfit j (array_set_int key i (some n)) ≡ (
          if ltb key (array_length (some n)) && (key == j)
          then i
          else array_get_int unfit j (some n)))
      × (array_get_float j (array_set_float key f (some n)) ≡ (
          if ltb key (array_length (some n)) && (key == j) then f else array_get_float j (some n)))
      × (array_get_bool j (array_set_bool key b (some n)) ≡ (
          if ltb key (array_length (some n)) && (key == j) then b else array_get_bool j (some n)))
      × (array_member_type j (array_set_null key (some n)) ≡ (
          if ltb key (array_length (some n)) && (key == j)
          then type_null
          else array_member_type j (some n)))
unfolding array_set_string array_set_int array_set_float array_set_bool array_set_null string_of
    int_of float_of bool_of
array_setters_lem unfit n key j s i f b = (
  read_back string_of (ltb key (array_length (some n)) && (key == j)) (string (c_str s)) _ _
        (array_get_member_node-set n key j (string (c_str s)))
      ∙ ap
          (λ r.
            if ltb key (array_length (some n)) && (key == j)
            then r
            else string_of (array_get_member_node j (some n)))
          (c_str-idempotent s),
  read_back (int_of unfit) (ltb key (array_length (some n)) && (key == j)) (int i) _ _
      (array_get_member_node-set n key j (int i)),
  read_back float_of (ltb key (array_length (some n)) && (key == j)) (float f) _ _
      (array_get_member_node-set n key j (float f)),
  read_back bool_of (ltb key (array_length (some n)) && (key == j)) (bool b) _ _
      (array_get_member_node-set n key j (bool b)),
  read_back node_to_type (ltb key (array_length (some n)) && (key == j)) (null) _ _
      (array_get_member_node-set n key j (null)),
)
