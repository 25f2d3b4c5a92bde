-- ===== src/Nodes/IntMaps.antt =====
-- src/data/data_node.cpp: `IntMapFind` to `IntMapMerge`.
use async.Base.{ℕ, Bool, true, false, List, ◌∷◌, Option, none, some, ◌==◌, if◌then◌else◌}
use async.Base.Tables.{is_some}
use async.Data.{
  DataNode, Entries, int_map, int_map, no_entries, no_entries, entry, size_entries, size_entries,
  put_entry, put_entry,
}
use async.Nodes.Objects.{lost}
use async.Nodes.{Node, bump, deep_copy, find_entry, find_entry}

unfoldable pub int_map_find : ℕ → Node → Option DataNode
int_map_find key n = elim n.value [ int_map fs ↦ find_entry key fs | _ ↦ none ]

unfoldable pub int_map_contains : ℕ → Node → Bool
int_map_contains key n = elim n.value [ int_map fs ↦ is_some (find_entry key fs) | _ ↦ false ]

unfoldable pub int_map_insert : ℕ → DataNode → Node → Node
int_map_insert key val n = elim n.value [
  | int_map fs ↦ record {
    value = int_map (put_entry key val fs);
    version = bump n.version;
    dropped = lost (find_entry key fs) n.dropped;
  }
  | _ ↦ record n { dropped = val ∷ n.dropped }
]

-- `Intmap().erase`
unfoldable pub erase_entry : ℕ → Entries → Entries
erase_entry k no_entries = no_entries
erase_entry k (entry j v fs) = if j == k then fs else entry j v (erase_entry k fs)

abbrev pub erase_found : ℕ → Entries → Option DataNode → Node → Node × Bool
erase_found key fs none n = (n, false)
erase_found key fs (some v) n = (
  record {
    value = int_map (erase_entry key fs);
    version = bump n.version;
    dropped = v ∷ n.dropped;
  },
  true,
)

unfoldable pub int_map_erase : ℕ → Node → Node × Bool
int_map_erase key n = elim n.value [
  | int_map fs ↦ erase_found key fs (find_entry key fs) n
  | _ ↦ (n, false)
]

unfoldable pub int_map_size : Node → ℕ
int_map_size n = elim n.value [ int_map fs ↦ size_entries fs | _ ↦ 0 ]

-- The loop that gives every value to `Decref`.
unfoldable pub drop_entries : Entries → List DataNode → List DataNode
drop_entries no_entries dropped = dropped
drop_entries (entry k v fs) dropped = drop_entries fs (v ∷ dropped)

unfoldable pub int_map_clear : Node → Node
int_map_clear n = elim n.value [
  | int_map fs ↦ record {
    value = int_map no_entries;
    version = bump n.version;
    dropped = drop_entries fs n.dropped;
  }
  | _ ↦ n
]

abbrev merge_found :
    (overwrite : Bool)
    → ℕ
    → DataNode
    → Entries × List DataNode
    → Option DataNode
    → Entries × List DataNode
merge_found overwrite key val made none = (put_entry key (deep_copy val) made.0, made.1)
merge_found overwrite key val made (some v) =
    if overwrite then (put_entry key (deep_copy val) made.0, v ∷ made.1) else made

-- One round of the loop of the merge: the map and the nodes dropped so far.
unfoldable pub merge_entry :
    (overwrite : Bool) → ℕ → DataNode → Entries × List DataNode → Entries × List DataNode
merge_entry overwrite key val made = merge_found overwrite key val made (find_entry key made.0)

unfoldable pub merge_entries :
    (overwrite : Bool) → Entries → Entries × List DataNode → Entries × List DataNode
merge_entries overwrite no_entries made = made
merge_entries overwrite (entry key val gs) made =
    merge_entries overwrite gs (merge_entry overwrite key val made)

abbrev merge_into : (overwrite : Bool) → DataNode → Option DataNode → Node → Node
merge_into overwrite (int_map fs) (some (int_map gs)) n = record n {
  value = int_map (merge_entries overwrite gs (fs, n.dropped)).0;
  dropped = (merge_entries overwrite gs (fs, n.dropped)).1;
}
merge_into overwrite _ _ n = n

-- `IntMapMerge` with another node, `none` for `nullptr`. It does not touch the counter.
unfoldable pub int_map_merge : Option DataNode → (overwrite : Bool) → Node → Node
int_map_merge other overwrite n = merge_into overwrite n.value other n
