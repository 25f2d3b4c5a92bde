-- ===== src/DataHandles/Members.antt =====
-- Which member a handle finds after one was set.
use async.Base.{
  ℕ, zero, suc, ◌≡◌, ◌&&◌, ltb, refl, ap, Bool, true, false, List, [], ◌∷◌, some, ◌==◌,
  if◌then◌else◌, arith, Bool-cases, Option-cases, inl, inr, Bytes, bytes_eq,
}
use async.Base.Tables.{is_some}
use async.Data.{DataNode, Items, array, object, int_map, no_items, item, size_items}
use async.Nodes.{Node, c_str}
use async.Nodes.Objects.{obj_insert, obj_find}
use async.Nodes.IntMaps.{int_map_insert, int_map_find}
use async.Nodes.Arrays.{item_at, set_item, append_items, arr_set}
use async.Nodes.Merge.{find_field-put, find_entry-put}
use async.DataHandles.{type_object, type_int_object, type_array, get_type, array_length}
use async.DataHandles.Getters.{get_member_node, array_get_member_node, int_map_get_member_node}
use async.DataHandles.Setters.{set_in_object, set_in_int_map, set_in_array, append_to_array}

pub c_str-idempotent : (s : Bytes) → c_str (c_str s) ≡ c_str s
unfolding c_str
c_str-idempotent [] = refl
c_str-idempotent (c ∷ s) = elim (Bool-cases (c == 0)) [
  | inl e ↦ rw e
  | inr e ↦ rw e (rw e (ap (λ t. c ∷ t) (c_str-idempotent s)))
]

-- A test decides between a new value and the old one after any function of them as before it.
pub when {ℓ κ} :
    {A : Type ℓ} {B : Type κ} (f : A → B) (b : Bool) (x y : A)
    → f (if b then x else y) ≡ (if b then f x else f y)
when f true x y = refl
when f false x y = refl

item_at-set_at :
    (i j : ℕ) (v : DataNode) (xs : Items)
    → item_at j (if is_some (item_at i xs) then set_item i v xs else xs)
      ≡ (if ltb i (size_items xs) && (i == j) then some v else item_at j xs)
unfolding item_at set_item size_items
item_at-set_at i j v no_items = ground arith
item_at-set_at zero zero v (item x xs) = ground arith
item_at-set_at zero (suc j) v (item x xs) = ground arith
item_at-set_at (suc i) zero v (item x xs) = ground arith
item_at-set_at (suc i) (suc j) v (item x xs) = ground (arith, item_at-set_at i j v xs)

item_at-append :
    (j : ℕ) (v : DataNode) (xs : Items)
    → item_at j (append_items xs (item v no_items))
      ≡ (if j == size_items xs then some v else item_at j xs)
unfolding item_at append_items size_items
item_at-append zero v no_items = ground arith
item_at-append (suc j) v no_items = ground arith
item_at-append zero v (item x xs) = ground arith
item_at-append (suc j) v (item x xs) = ground (arith, item_at-append j v xs)

module _ (n : Node) where
  pub get_member_node-set :
      (key j : Bytes) (v : DataNode)
      → get_type (some n) ≡ type_object
      → get_member_node j (set_in_object key v (some n))
        ≡ (if bytes_eq (c_str key) (c_str j) then some v else get_member_node j (some n))
  unfolding set_in_object obj_find obj_insert
  get_member_node-set key j v t = by_value n.value n.version n.dropped t
    where
      by_value :
          (value : DataNode) (version : ℕ) (dropped : List DataNode)
          → let n : Node = record { value = value; version = version; dropped = dropped } in
            get_type (some n) ≡ type_object
            → get_member_node j (set_in_object key v (some n))
              ≡ (if bytes_eq (c_str key) (c_str j) then some v else get_member_node j (some n))
      by_value (object fs) version dropped t = find_field-put (c_str key) (c_str j) v fs
      by_value _ version dropped t = cc t

  pub int_map_get_member_node-set :
      (key j : ℕ) (v : DataNode)
      → get_type (some n) ≡ type_int_object
      → int_map_get_member_node j (set_in_int_map key v (some n))
        ≡ (if key == j then some v else int_map_get_member_node j (some n))
  unfolding set_in_int_map int_map_find int_map_insert
  int_map_get_member_node-set key j v t = by_value n.value n.version n.dropped t
    where
      by_value :
          (value : DataNode) (version : ℕ) (dropped : List DataNode)
          → let n : Node = record { value = value; version = version; dropped = dropped } in
            get_type (some n) ≡ type_int_object
            → int_map_get_member_node j (set_in_int_map key v (some n))
              ≡ (if key == j then some v else int_map_get_member_node j (some n))
      by_value (int_map es) version dropped t = find_entry-put key j v es
      by_value _ version dropped t = cc t

  pub array_get_member_node-set :
      (i j : ℕ) (v : DataNode)
      → array_get_member_node j (set_in_array i v (some n)) ≡ (
          if ltb i (array_length (some n)) && (i == j)
          then some v
          else array_get_member_node j (some n))
  unfolding set_in_array arr_set
  array_get_member_node-set i j v = by_value n.value n.version n.dropped
    where
      by_value :
          (value : DataNode) (version : ℕ) (dropped : List DataNode)
          → let n : Node = record { value = value; version = version; dropped = dropped } in
            array_get_member_node j (set_in_array i v (some n)) ≡ (
              if ltb i (array_length (some n)) && (i == j)
              then some v
              else array_get_member_node j (some n))
      by_value (array xs) version dropped = elim (Option-cases (item_at i xs)) [
        | inl e ↦ rw e (rw e at (item_at-set_at i j v xs))
        | inr (x, e) ↦ rw e (rw e at (item_at-set_at i j v xs))
      ]
      by_value _ version dropped = ground arith

  array_get_member_node-append :
      (j : ℕ) (v : DataNode)
      → get_type (some n) ≡ type_array
      → array_get_member_node j (append_to_array v (some n))
        ≡ (if j == array_length (some n) then some v else array_get_member_node j (some n))
  unfolding append_to_array
  array_get_member_node-append j v t = by_value n.value n.version n.dropped t
    where
      by_value :
          (value : DataNode) (version : ℕ) (dropped : List DataNode)
          → let n : Node = record { value = value; version = version; dropped = dropped } in
            get_type (some n) ≡ type_array
            → array_get_member_node j (append_to_array v (some n))
              ≡ (if j == array_length (some n) then some v else array_get_member_node j (some n))
      by_value (array xs) version dropped t = item_at-append j v xs
      by_value _ version dropped t = cc t
