-- ===== src/Nodes/Arrays.antt =====
-- src/data/data_node.cpp: `ArrRemove` to `ArrExtend`. None of them touches the counter.
use async.Base.{ℕ, zero, suc, Bool, true, false, List, ◌∷◌, Option, none, some}
use async.Data.{DataNode, Items, array, no_items, item}
use async.Nodes.{copy_items, Node}

unfoldable pub item_at : ℕ → Items → Option DataNode
item_at i no_items = none
item_at zero (item v xs) = some v
item_at (suc i) (item v xs) = item_at i xs

-- `Arr().erase` and the assignment to an element.
unfoldable pub erase_item : ℕ → Items → Items
erase_item i no_items = no_items
erase_item zero (item v xs) = xs
erase_item (suc i) (item v xs) = item v (erase_item i xs)

unfoldable pub set_item : ℕ → DataNode → Items → Items
set_item i val no_items = no_items
set_item zero val (item v xs) = item val xs
set_item (suc i) val (item v xs) = item v (set_item i val xs)

unfoldable pub append_items : Items → Items → Items
append_items no_items ys = ys
append_items (item v xs) ys = item v (append_items xs ys)

abbrev pub remove_at : ℕ → Items → Option DataNode → Node → Node × Bool
remove_at index xs none n = (n, false)
remove_at index xs (some v) n =
    (record n { value = array (erase_item index xs); dropped = v ∷ n.dropped }, true)

unfoldable pub arr_remove : ℕ → Node → Node × Bool
arr_remove index n = elim n.value [
  | array xs ↦ remove_at index xs (item_at index xs) n
  | _ ↦ (n, false)
]

abbrev pub set_at : ℕ → DataNode → Items → Option DataNode → Node → Node
set_at index val xs none n = record n { dropped = val ∷ n.dropped }
set_at index val xs (some v) n = record n {
  value = array (set_item index val xs);
  dropped = v ∷ n.dropped;
}

unfoldable pub arr_set : ℕ → DataNode → Node → Node
arr_set index val n = elim n.value [
  | array xs ↦ set_at index val xs (item_at index xs) n
  | _ ↦ record n { dropped = val ∷ n.dropped }
]

unfoldable pub drop_items : Items → List DataNode → List DataNode
drop_items no_items dropped = dropped
drop_items (item v xs) dropped = drop_items xs (v ∷ dropped)

unfoldable pub arr_clear : Node → Node
arr_clear n = elim n.value [
  | array xs ↦ record n { value = array no_items; dropped = drop_items xs n.dropped }
  | _ ↦ n
]

abbrev extend_with : DataNode → Option DataNode → Node → Node
extend_with (array xs) (some (array ys)) n = record n {
  value = array (append_items xs (copy_items ys));
}
extend_with _ _ n = n

-- `ArrExtend` with another node, `none` for `nullptr`.
unfoldable pub arr_extend : Option DataNode → Node → Node
arr_extend other n = extend_with n.value other n
