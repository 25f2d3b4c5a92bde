-- ===== src/LinkedLists/Queries.antt =====
-- src/linked_list.cpp: the functions that look at a list, and those that change its values, empty it
-- and copy it.
use async.Base.{
  ℕ, zero, suc, ◌%◌, ◌^◌, true, false, [], Option, none, some, ◌>>=◌, ◌==◌, if◌then◌else◌, length,
}
use async.Base.Tables.{find}
use async.LinkedLists.{LinkedList, sentinel, linked_list, store, find_node, push_back, delete}

-- `GetValue`
abbrev pub value_found : Option ℕ → LinkedList → Option ℕ
value_found none s = some 0
value_found (some node) s = find node s.value

unfoldable pub get_value : (i : ℕ) → LinkedList → Option ℕ
unfolding find_node find
get_value i s = value_found (find_node i s) s

-- `SetValue`
abbrev pub assign_found : Option ℕ → (v : ℕ) → LinkedList → Option LinkedList
assign_found none v s = some s
assign_found (some node) v s = store node v s.value >>= (λ t. some (record s { value = t }))

unfoldable pub set_value : (i v : ℕ) → LinkedList → Option LinkedList
unfolding find_node store
set_value i v s = assign_found (find_node i s) v s

-- The id of a node, 0 for the sentinel.
unfoldable pub id_or_zero : (node : ℕ) → LinkedList → Option ℕ
unfolding find
id_or_zero node s = if node == sentinel then some 0 else find node s.id

-- `First` and `Last`
unfoldable pub first_id : LinkedList → Option ℕ
unfolding find id_or_zero
first_id s = find sentinel s.next >>= (λ node. id_or_zero node s)

unfoldable pub last_id : LinkedList → Option ℕ
unfolding find id_or_zero
last_id s = find sentinel s.prev >>= (λ node. id_or_zero node s)

-- `Next` and `Prev`
abbrev pub next_found : Option ℕ → LinkedList → Option ℕ
next_found none s = some 0
next_found (some node) s = find node s.next >>= (λ right. id_or_zero right s)

unfoldable pub next_node : (i : ℕ) → LinkedList → Option ℕ
unfolding find_node find id_or_zero
next_node i s = next_found (find_node i s) s

abbrev pub prev_found : Option ℕ → LinkedList → Option ℕ
prev_found none s = some 0
prev_found (some node) s = find node s.prev >>= (λ left. id_or_zero left s)

unfoldable pub prev_node : (i : ℕ) → LinkedList → Option ℕ
unfolding find_node find id_or_zero
prev_node i s = prev_found (find_node i s) s

-- `Size`
unfoldable pub size : LinkedList → ℕ
size s = length s.nodes % 2 ^ 32

-- The loop of `Clear`; there is a round for each node, and one to see the end.
unfoldable pub delete_all : (fuel node : ℕ) → LinkedList → Option LinkedList
unfolding find delete
delete_all zero node s = none
delete_all (suc fuel) node s = elim (node == sentinel) [
  | true ↦ some s
  | false ↦ find node s.next >>= (λ right. delete_all fuel right (delete node s))
]

-- `Clear`
unfoldable pub clear : LinkedList → Option LinkedList
unfolding find delete_all store
clear s = do
  node ← find sentinel s.next
  bare ← delete_all (suc (length s.nodes)) node s
  next1 ← store sentinel sentinel bare.next
  prev1 ← store sentinel sentinel bare.prev
  some (record bare { next = next1; prev = prev1; nodes = []; free_ids = [] })

-- The loop of `DeepCopy`.
unfoldable pub copy_all : (fuel cur : ℕ) → LinkedList → (copy : LinkedList) → Option LinkedList
unfolding find push_back
copy_all zero cur s copy = none
copy_all (suc fuel) cur s copy = elim (cur == sentinel) [
  | true ↦ some copy
  | false ↦ do
    v ← find cur s.value
    pushed ← push_back v copy
    right ← find cur s.next
    copy_all fuel right s pushed.0
]

-- `DeepCopy`
unfoldable pub deep_copy_list : LinkedList → Option LinkedList
unfolding find copy_all
deep_copy_list s =
    find sentinel s.next >>= (λ cur. copy_all (suc (length s.nodes)) cur s linked_list)
