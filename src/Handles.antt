-- ===== src/Handles.antt =====
-- src/handle_manager.h and handle_manager.cpp: the table of the objects that plugins hold handles
-- to. A handle is the bit pattern of its `int`; a pointer is a number, 0 for `nullptr`.
pub mod Invariant
pub mod Create
pub mod Preserve
pub mod Reach
pub mod Fresh
pub mod Take
pub mod Behave
pub mod Cursor
mod Tests
use async.Base.{
  ℕ, zero, suc, ◌+◌, ◌%◌, ◌^◌, Bool, true, false, not, ◌||◌, List, [], ◌∷◌, ◌++◌, Option, none,
  some, ◌==◌, if◌then◌else◌,
}
use async.Base.Tables.{find, put, erase, member, insert, remove, is_some}

pub data HandleType : Type 0 where
  http_request json_value tcp_socket udp_socket ws_socket linked_list iterator no_handle :
      HandleType

-- The value of the `enum`.
abbrev pub type_index : HandleType → ℕ
type_index http_request = 0
type_index json_value = 1
type_index tcp_socket = 2
type_index udp_socket = 3
type_index ws_socket = 4
type_index linked_list = 5
type_index iterator = 6
type_index no_handle = 7

pub record Handle : Type 0 where
  pub type : HandleType
  pub pointer : ℕ
  pub owner : ℕ
  pub closed : Bool

-- `deleted` logs the objects that `delete` was called on.
pub record HandleManager : Type 0 where
  pub next_handle : ℕ
  pub used_handles : List (ℕ × Handle)
  pub plugin_handles : List (ℕ × List ℕ)
  pub deleted : List (HandleType × ℕ)

abbrev pub handle_manager : HandleManager
handle_manager = record { next_handle = 1; used_handles = []; plugin_handles = []; deleted = [] }

-- `DeleteHandlePointer`: what a `switch` on the type deletes.
unfoldable pub delete_handle_pointer : Handle → List (HandleType × ℕ) → List (HandleType × ℕ)
delete_handle_pointer h log = if type_index h.type == 7 then log else (h.type, h.pointer) ∷ log

clean_all : List (ℕ × Handle) → List (HandleType × ℕ) → List (HandleType × ℕ)
clean_all [] log = log
clean_all ((id, h) ∷ m) log = clean_all m (delete_handle_pointer h log)

-- `CleanHandles`
unfoldable pub clean_handles : HandleManager → HandleManager
unfolding clean_all
clean_handles s = record s {
  used_handles = [];
  plugin_handles = [];
  deleted = clean_all s.used_handles s.deleted;
}

-- The getters, `GetHttpRequest` to `GetDataIterator`: each looks for its own type.
abbrev pub as_type : HandleType → Option Handle → Option ℕ
as_type t none = none
as_type t (some h) =
    if not (type_index h.type == type_index t) || h.closed then none else some h.pointer

unfoldable pub get_handle : HandleType → ℕ → HandleManager → Option ℕ
get_handle t id s = as_type t (find id s.used_handles)

unfoldable pub get_http_request : ℕ → HandleManager → Option ℕ
unfolding get_handle
get_http_request = get_handle http_request

unfoldable pub get_data_handle : ℕ → HandleManager → Option ℕ
unfolding get_handle
get_data_handle = get_handle json_value

unfoldable pub get_tcp_socket : ℕ → HandleManager → Option ℕ
unfolding get_handle
get_tcp_socket = get_handle tcp_socket

unfoldable pub get_udp_socket : ℕ → HandleManager → Option ℕ
unfolding get_handle
get_udp_socket = get_handle udp_socket

unfoldable pub get_ws_socket : ℕ → HandleManager → Option ℕ
unfolding get_handle
get_ws_socket = get_handle ws_socket

unfoldable pub get_linked_list : ℕ → HandleManager → Option ℕ
unfolding get_handle
get_linked_list = get_handle linked_list

unfoldable pub get_data_iterator : ℕ → HandleManager → Option ℕ
unfolding get_handle
get_data_iterator = get_handle iterator

-- The scan of `CreateHandle` for a free id: `none` when the fuel ran out, `some 0` when the scan came
-- back to its start.
unfoldable pub scan : (fuel start candidate : ℕ) → List (ℕ × Handle) → Option ℕ
scan zero start candidate used = none
scan (suc fuel) start candidate used =
    let id = if candidate == 0 then 1 else candidate in
    let next = (id + 1) % 2 ^ 32 in
    let again = scan fuel start next used in
    let wrapped = if next == start then some 0 else again in
    if is_some (find id used) then wrapped else some id

abbrev pub or_empty : Option (List ℕ) → List ℕ
or_empty none = []
or_empty (some ids) = ids

abbrev pub plugin_set : ℕ → List (ℕ × List ℕ) → List ℕ
plugin_set owner plugins = or_empty (find owner plugins)

-- `if (owner) plugin_handles_[owner].insert(id)`
unfoldable pub add_to_plugin_set : (owner id : ℕ) → List (ℕ × List ℕ) → List (ℕ × List ℕ)
add_to_plugin_set owner id plugins =
    if owner == 0 then plugins else put owner (insert id (plugin_set owner plugins)) plugins

abbrev pub is_empty : List ℕ → Bool
is_empty [] = true
is_empty (x ∷ s) = false

abbrev pub remove_from_found :
    (owner id : ℕ) → Option (List ℕ) → List (ℕ × List ℕ) → List (ℕ × List ℕ)
remove_from_found owner id none plugins = plugins
remove_from_found owner id (some ids) plugins =
    if is_empty (remove id ids) then erase owner plugins else put owner (remove id ids) plugins

-- `RemoveFromPluginSet`
unfoldable pub remove_from_plugin_set : (owner id : ℕ) → List (ℕ × List ℕ) → List (ℕ × List ℕ)
remove_from_plugin_set owner id plugins = remove_from_found owner id (find owner plugins) plugins

abbrev pub scan_fuel : ℕ
scan_fuel = 2 ^ 32

-- What `CreateHandle` does with the id that the scan found.
unfoldable pub enter_handle :
    (pointer : ℕ) → HandleType → (owner id : ℕ) → HandleManager → HandleManager × ℕ
enter_handle pointer t owner id s = if id == 0 then (s, 0) else (
  record {
    next_handle = (id + 1) % 2 ^ 32;
    used_handles =
        put id (record { type = t; pointer = pointer; owner = owner; closed = false })
          s.used_handles;
    plugin_handles = add_to_plugin_set owner id s.plugin_handles;
    deleted = s.deleted;
  },
  id,
)

abbrev pub enter_found :
    (pointer : ℕ) → HandleType → (owner : ℕ) → Option ℕ → HandleManager → Option (HandleManager × ℕ)
enter_found pointer t owner none s = none
enter_found pointer t owner (some id) s = some (enter_handle pointer t owner id s)

-- `CreateHandle`; `none` when the scan does not end.
unfoldable pub create_handle :
    (pointer : ℕ) → HandleType → (owner : ℕ) → HandleManager → Option (HandleManager × ℕ)
create_handle pointer t owner s =
    enter_found pointer t owner (scan scan_fuel s.next_handle s.next_handle s.used_handles) s

-- `if (owner) RemoveFromPluginSet(owner, id)`
unfoldable pub disown : (owner id : ℕ) → List (ℕ × List ℕ) → List (ℕ × List ℕ)
disown owner id plugins = if owner == 0 then plugins else remove_from_plugin_set owner id plugins

abbrev pub free_found : ℕ → Option Handle → HandleManager → HandleManager
free_found id none s = s
free_found id (some h) s = record s {
  used_handles = erase id s.used_handles;
  plugin_handles = disown h.owner id s.plugin_handles;
  deleted = delete_handle_pointer h s.deleted;
}

-- `FreeHandle`
unfoldable pub free_handle : ℕ → HandleManager → HandleManager
free_handle id s = free_found id (find id s.used_handles) s

abbrev pub mark_found : ℕ → Option Handle → HandleManager → HandleManager
mark_found id none s = s
mark_found id (some h) s = record s {
  used_handles = put id (record h { closed = true }) s.used_handles;
}

-- `MarkHandleClosed`
unfoldable pub mark_handle_closed : ℕ → HandleManager → HandleManager
mark_handle_closed id s = mark_found id (find id s.used_handles) s

-- `TransferHandle` to another owner.
unfoldable pub change_owner : (id new_owner : ℕ) → Handle → HandleManager → HandleManager
change_owner id new_owner h s = record s {
  used_handles = put id (record h { owner = new_owner }) s.used_handles;
  plugin_handles = add_to_plugin_set new_owner id (disown h.owner id s.plugin_handles);
}

abbrev pub transfer_found :
    (id new_owner : ℕ) → Option Handle → HandleManager → HandleManager × Bool
transfer_found id new_owner none s = (s, false)
transfer_found id new_owner (some h) s =
    if h.closed
    then (s, false)
    else if h.owner == new_owner
    then (s, true)
    else (change_owner id new_owner h s, true)

-- `TransferHandle`
unfoldable pub transfer_handle : (id new_owner : ℕ) → HandleManager → HandleManager × Bool
transfer_handle id new_owner s = transfer_found id new_owner (find id s.used_handles) s

-- `it->second.owner = nullptr`, where the id is in use.
abbrev pub detach_found : ℕ → Option Handle → List (ℕ × Handle) → List (ℕ × Handle)
detach_found id none used = used
detach_found id (some h) used = put id (record h { owner = 0 }) used

abbrev pub taken_found : ℕ → Option Handle → List (ℕ × Handle) → List (ℕ × Handle)
taken_found id none taken = taken
taken_found id (some h) taken = (id, record h { owner = 0 }) ∷ taken

-- The loop of `TakePluginHandles` over the ids of a plugin.
unfoldable pub take_ids : List ℕ → List (ℕ × Handle) → List (ℕ × Handle) × List (ℕ × Handle)
take_ids [] used = (used, [])
take_ids (id ∷ ids) used =
    let rest = take_ids ids (detach_found id (find id used) used) in
    (rest.0, taken_found id (find id used) rest.1)

abbrev pub take_found : ℕ → Option (List ℕ) → HandleManager → HandleManager × List (ℕ × Handle)
take_found ctx none s = (s, [])
take_found ctx (some ids) s = (
  record s {
    used_handles = (take_ids ids s.used_handles).0;
    plugin_handles = erase ctx s.plugin_handles;
  },
  (take_ids ids s.used_handles).1,
)

-- `TakePluginHandles`
unfoldable pub take_plugin_handles : ℕ → HandleManager → HandleManager × List (ℕ × Handle)
take_plugin_handles ctx s = take_found ctx (find ctx s.plugin_handles) s
