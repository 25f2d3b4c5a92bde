-- ===== src/Nodes/Objects.antt =====
-- src/data/data_node.cpp: `ObjFind` to `ObjMerge`.
use async.Base.{ℕ, Bool, true, false, List, ◌∷◌, Option, none, some, if◌then◌else◌, Bytes, bytes_eq}
use async.Base.Tables.{is_some}
use async.Data.{DataNode, Fields, object, no_fields, field, size_fields, put_field}
use async.Nodes.{Node, bump, deep_copy, find_field}

unfoldable pub obj_find : Bytes → Node → Option DataNode
obj_find key n = elim n.value [ object fs ↦ find_field key fs | _ ↦ none ]

unfoldable pub obj_contains : Bytes → Node → Bool
obj_contains key n = elim n.value [ object fs ↦ is_some (find_field key fs) | _ ↦ false ]

-- The node that a map loses when a key is written or erased.
abbrev pub lost : Option DataNode → List DataNode → List DataNode
lost none dropped = dropped
lost (some v) dropped = v ∷ dropped

unfoldable pub obj_insert : Bytes → DataNode → Node → Node
obj_insert key val n = elim n.value [
  | object fs ↦ record {
    value = object (put_field key val fs);
    version = bump n.version;
    dropped = lost (find_field key fs) n.dropped;
  }
  | _ ↦ record n { dropped = val ∷ n.dropped }
]

-- `Obj().erase`
unfoldable pub erase_field : Bytes → Fields → Fields
erase_field k no_fields = no_fields
erase_field k (field j v fs) = if bytes_eq j k then fs else field j v (erase_field k fs)

abbrev pub erase_found : Bytes → Fields → Option DataNode → Node → Node × Bool
erase_found key fs none n = (n, false)
erase_found key fs (some v) n = (
  record { value = object (erase_field key fs); version = bump n.version; dropped = v ∷ n.dropped },
  true,
)

unfoldable pub obj_erase : Bytes → Node → Node × Bool
obj_erase key n = elim n.value [
  | object fs ↦ erase_found key fs (find_field key fs) n
  | _ ↦ (n, false)
]

unfoldable pub obj_size : Node → ℕ
obj_size n = elim n.value [ object fs ↦ size_fields fs | _ ↦ 0 ]

-- The loop that gives every value to `Decref`.
unfoldable pub drop_fields : Fields → List DataNode → List DataNode
drop_fields no_fields dropped = dropped
drop_fields (field k v fs) dropped = drop_fields fs (v ∷ dropped)

unfoldable pub obj_clear : Node → Node
obj_clear n = elim n.value [
  | object fs ↦ record {
    value = object no_fields;
    version = bump n.version;
    dropped = drop_fields fs n.dropped;
  }
  | _ ↦ n
]

abbrev merge_found :
    (overwrite : Bool)
    → Bytes
    → DataNode
    → Fields × List DataNode
    → Option DataNode
    → Fields × List DataNode
merge_found overwrite key val made none = (put_field key (deep_copy val) made.0, made.1)
merge_found overwrite key val made (some v) =
    if overwrite then (put_field key (deep_copy val) made.0, v ∷ made.1) else made

-- One round of the loop of the merge: the map and the nodes dropped so far.
unfoldable pub merge_field :
    (overwrite : Bool) → Bytes → DataNode → Fields × List DataNode → Fields × List DataNode
merge_field overwrite key val made = merge_found overwrite key val made (find_field key made.0)

unfoldable pub merge_fields :
    (overwrite : Bool) → Fields → Fields × List DataNode → Fields × List DataNode
merge_fields overwrite no_fields made = made
merge_fields overwrite (field key val gs) made =
    merge_fields overwrite gs (merge_field overwrite key val made)

abbrev merge_into : (overwrite : Bool) → DataNode → Option DataNode → Node → Node
merge_into overwrite (object fs) (some (object gs)) n = record n {
  value = object (merge_fields overwrite gs (fs, n.dropped)).0;
  dropped = (merge_fields overwrite gs (fs, n.dropped)).1;
}
merge_into overwrite _ _ n = n

-- `ObjMerge` with another node, `none` for `nullptr`. It does not touch the counter.
unfoldable pub obj_merge : Option DataNode → (overwrite : Bool) → Node → Node
obj_merge other overwrite n = merge_into overwrite n.value other n
