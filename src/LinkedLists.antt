-- ===== src/LinkedLists.antt =====
-- src/linked_list.cpp: a ring of nodes around a sentinel, and a map from ids to nodes. The heap is a
-- table for each field of `Node`, from the address of a node to what the field holds. An operation is
-- none where it reads or writes a node that is not there. A `uint32_t` is below 2 ^ 32; an `int` is
-- its bit pattern.
pub mod Ring
pub mod Steps
pub mod Entries
pub mod Holds
pub mod Pushes
pub mod Removes
pub mod Pops
pub mod Moves
pub mod Queries
pub mod Answers
pub mod Refine
pub mod Copies
mod Tests
use async.Base.{
  ℕ, zero, suc, ◌+◌, ◌%◌, ◌^◌, Bool, true, false, ◌||◌, List, [], ◌∷◌, ◌++◌, Option, none, some,
  ◌>>=◌, ◌==◌, if◌then◌else◌, length,
}
use async.Base.Tables.{find, put, erase, is_some}

-- `fresh` is the address that the next `new` gives.
pub record LinkedList : Type 0 where
  pub value : List (ℕ × ℕ)
  pub prev : List (ℕ × ℕ)
  pub next : List (ℕ × ℕ)
  pub id : List (ℕ × ℕ)
  pub fresh : ℕ
  pub next_id : ℕ
  pub free_ids : List ℕ
  pub nodes : List (ℕ × ℕ)

-- `&sentinel_`; 0 is the null pointer.
abbrev pub sentinel : ℕ
sentinel = 1

-- The constructor.
abbrev pub linked_list : LinkedList
linked_list = record {
  value = (sentinel, 0) ∷ [];
  prev = (sentinel, sentinel) ∷ [];
  next = (sentinel, sentinel) ∷ [];
  id = (sentinel, 0) ∷ [];
  fresh = 2;
  next_id = 1;
  free_ids = [];
  nodes = [];
}

-- `node->field = v`
unfoldable pub store : (node v : ℕ) → List (ℕ × ℕ) → Option (List (ℕ × ℕ))
unfolding find put
store node v field = if is_some (find node field) then some (put node v field) else none

-- `FindNode`
unfoldable pub find_node : ℕ → LinkedList → Option ℕ
unfolding find
find_node i s = find i s.nodes

-- `InsertBefore`
unfoldable pub insert_before : (pos node : ℕ) → LinkedList → Option LinkedList
unfolding find store
insert_before pos node s = do
  before ← find pos s.prev
  prev1 ← store node before s.prev
  next1 ← store node pos s.next
  left ← find pos prev1
  next2 ← store left node next1
  prev2 ← store pos node prev1
  some (record s { prev = prev2; next = next2 })

-- `Unlink`
unfoldable pub unlink : (node : ℕ) → LinkedList → Option LinkedList
unfolding find store
unlink node s = do
  left ← find node s.prev
  right ← find node s.next
  next1 ← store left right s.next
  right1 ← find node next1
  prev1 ← store right1 left s.prev
  some (record s { prev = prev1; next = next1 })

-- `NextId`, with its new id.
abbrev pub take_id : List ℕ → LinkedList → LinkedList × ℕ
take_id (i ∷ rest) s = (record s { free_ids = rest }, i)
take_id [] s =
    if s.next_id == 0
    then (record s { next_id = (s.next_id + 2) % 2 ^ 32 }, (s.next_id + 1) % 2 ^ 32)
    else (record s { next_id = (s.next_id + 1) % 2 ^ 32 }, s.next_id)

unfoldable pub new_id : LinkedList → LinkedList × ℕ
new_id s = take_id s.free_ids s

-- `new Node()`, its value and its id; the pointers are null.
unfoldable pub new_node : (v i : ℕ) → LinkedList → LinkedList × ℕ
unfolding put
new_node v i s = (
  record s {
    value = put s.fresh v s.value;
    prev = put s.fresh 0 s.prev;
    next = put s.fresh 0 s.next;
    id = put s.fresh i s.id;
    fresh = suc s.fresh;
  },
  s.fresh,
)

-- `nodes_[node->id] = node`
unfoldable pub register : (i node : ℕ) → LinkedList → LinkedList
unfolding put
register i node s = record s { nodes = put i node s.nodes }

-- `PushFront`
unfoldable pub push_front : (v : ℕ) → LinkedList → Option (LinkedList × ℕ)
unfolding find new_id new_node insert_before register
push_front v s =
    let named : LinkedList × ℕ = new_id s in
    let made : LinkedList × ℕ = new_node v named.1 named.0 in
    do
      pos ← find sentinel made.0.next
      linked ← insert_before pos made.1 made.0
      some (register named.1 made.1 linked, named.1)

-- `PushBack`
unfoldable pub push_back : (v : ℕ) → LinkedList → Option (LinkedList × ℕ)
unfolding new_id new_node insert_before register
push_back v s =
    let named : LinkedList × ℕ = new_id s in
    let made : LinkedList × ℕ = new_node v named.1 named.0 in
    do linked ← insert_before sentinel made.1 made.0; some (register named.1 made.1 linked, named.1)

-- `delete node`
unfoldable pub delete : (node : ℕ) → LinkedList → LinkedList
unfolding erase
delete node s = record s {
  value = erase node s.value;
  prev = erase node s.prev;
  next = erase node s.next;
  id = erase node s.id;
}

-- `nodes_.erase(i)` and `RecycleId`.
unfoldable pub forget : (i : ℕ) → LinkedList → LinkedList
unfolding erase
forget i s = record s { nodes = erase i s.nodes; free_ids = s.free_ids ++ (i ∷ []) }

-- What `PopFront` and `PopBack` have in common: the value of the node that is no more.
unfoldable pub take_node : (node : ℕ) → LinkedList → Option (LinkedList × ℕ)
unfolding find unlink forget delete
take_node node s = do
  v ← find node s.value
  apart ← unlink node s
  i ← find node apart.id
  some (delete node (forget i apart), v)

abbrev pub is_empty : List (ℕ × ℕ) → Bool
is_empty [] = true
is_empty (x ∷ xs) = false

-- `PopFront` and `PopBack`; the second result is what they return.
unfoldable pub pop_front : LinkedList → Option (LinkedList × ℕ)
unfolding find take_node
pop_front s = elim (is_empty s.nodes) [
  | true ↦ some (s, 0)
  | false ↦ find sentinel s.next >>= (λ node. take_node node s)
]

unfoldable pub pop_back : LinkedList → Option (LinkedList × ℕ)
unfolding find take_node
pop_back s = elim (is_empty s.nodes) [
  | true ↦ some (s, 0)
  | false ↦ find sentinel s.prev >>= (λ node. take_node node s)
]

-- `Remove`; the second result is `*out_value`.
abbrev pub remove_found : (i : ℕ) → Option ℕ → LinkedList → Option (LinkedList × ℕ)
remove_found i none s = some (s, 0)
remove_found i (some node) s = do
  v ← find node s.value
  apart ← unlink node s
  some (delete node (forget i apart), v)

unfoldable pub remove_node : (i : ℕ) → LinkedList → Option (LinkedList × ℕ)
unfolding find_node find unlink forget delete
remove_node i s = remove_found i (find_node i s) s

-- `MoveToFront` and `MoveToBack`.
abbrev pub front_found : Option ℕ → LinkedList → Option LinkedList
front_found none s = some s
front_found (some node) s = do
  first ← find sentinel s.next
  elim (node == first) [
    | true ↦ some s
    | false ↦ do apart ← unlink node s; pos ← find sentinel apart.next; insert_before pos node apart
  ]

unfoldable pub move_to_front : (i : ℕ) → LinkedList → Option LinkedList
unfolding find_node find unlink insert_before
move_to_front i s = front_found (find_node i s) s

abbrev pub back_found : Option ℕ → LinkedList → Option LinkedList
back_found none s = some s
back_found (some node) s = do
  last ← find sentinel s.prev
  elim (node == last) [
    | true ↦ some s
    | false ↦ unlink node s >>= (λ apart. insert_before sentinel node apart)
  ]

unfoldable pub move_to_back : (i : ℕ) → LinkedList → Option LinkedList
unfolding find_node find unlink insert_before
move_to_back i s = back_found (find_node i s) s
