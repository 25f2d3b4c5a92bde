-- ===== src/Handles/Tests.antt =====
-- Runs of the handle manager, and the theorems at concrete tables.
use async.Base.{
  ℕ, zero, suc, ◌-◌, ◌^◌, ◌≤◌, ◌≡◌, ◌≢◌, refl, false, true, List, [], ◌∷◌, ◌++◌, none, some, arith,
  if◌then◌else◌, ◌==◌, ◌&&◌,
}
use async.Base.Tables.{find, is_some, put, insert, member, erase, remove}
use async.Handles.{
  HandleType, Handle, HandleManager, handle_manager, json_value, tcp_socket, create_handle,
  clean_handles, free_handle, mark_handle_closed, transfer_handle, take_plugin_handles, get_handle,
  get_data_handle, scan, enter_handle, add_to_plugin_set, disown, remove_from_plugin_set,
  change_owner,
}
use async.Handles.Invariant.{IsValid, owned_by}
use async.Handles.Reach.{Reach, start, next, create, free, close, transfer, clean, Reach-IsValid}
use async.Handles.Cursor.{Reach-IsUnused}
use async.Handles.Create.{create_handle_full}
use async.Handles.Fresh.{IsCreated, create_handle_lem}
use async.Handles.Take.{detached, take_plugin_handles_lem}
use async.Handles.Behave.{
  object_of, free_handle_lem, mark_handle_closed_lem, is_open, with_owner, transfer_handle_lem,
}

-- A JSON value at address 77 that the plugin 9 holds.
abbrev one : HandleManager
one = record {
  next_handle = 2;
  used_handles = (1, record { type = json_value; pointer = 77; owner = 9; closed = false }) ∷ [];
  plugin_handles = (9, 1 ∷ []) ∷ [];
  deleted = [];
}

-- A socket is made next, and the JSON value is given to the plugin 5.
abbrev two : HandleManager
two = record {
  next_handle = 3;
  used_handles =
      (1, record { type = json_value; pointer = 77; owner = 9; closed = false })
      ∷ (2, record { type = tcp_socket; pointer = 88; owner = 9; closed = false })
      ∷ [];
  plugin_handles = (9, 2 ∷ 1 ∷ []) ∷ [];
  deleted = [];
}

first_handle : create_handle 77 json_value 9 handle_manager ≡ some (one, 1)
unfolding create_handle scan find enter_handle put add_to_plugin_set insert member
first_handle = refl

second_handle : create_handle 88 tcp_socket 9 one ≡ some (two, 2)
unfolding create_handle scan find enter_handle put add_to_plugin_set insert member
second_handle = refl

transferred : (transfer_handle 1 5 two).0.plugin_handles ≡ (9, 2 ∷ []) ∷ (5, 1 ∷ []) ∷ []
unfolding transfer_handle find change_owner add_to_plugin_set put disown remove_from_plugin_set
    remove insert member erase
transferred = refl

freed : (free_handle 1 two).plugin_handles ≡ (9, 2 ∷ []) ∷ []
unfolding free_handle find disown remove_from_plugin_set remove put erase
freed = refl

taken : (take_plugin_handles 9 two).0.plugin_handles ≡ []
unfolding take_plugin_handles find erase
taken = refl

closed_getter : get_data_handle 1 (mark_handle_closed 1 two) ≡ none
unfolding get_data_handle mark_handle_closed get_handle find put
closed_getter = refl

two-Reach : Reach two
two-Reach =
    next (next start (create 77 json_value 9 1 first_handle))
      (create 88 tcp_socket 9 2 second_handle)

two-IsValid : IsValid two
two-IsValid = Reach-IsValid two-Reach

Reach-IsValid_example : IsValid (transfer_handle 1 5 (mark_handle_closed 2 two)).0
Reach-IsValid_example = Reach-IsValid (next (next two-Reach (close 2)) (transfer 1 5))

-- Calls on a table that has no handle yet.
abbrev untouched : HandleManager
untouched = mark_handle_closed 3 (free_handle 1 (clean_handles handle_manager))

untouched_cursor : untouched.next_handle ≡ 1
unfolding mark_handle_closed free_handle clean_handles find
untouched_cursor = refl

Reach-IsUnused_example : untouched.used_handles ≡ []
Reach-IsUnused_example =
    Reach-IsUnused (next (next (next start clean) (free 1)) (close 3)) untouched_cursor

create_handle_example :
    (s' : HandleManager) × (id : ℕ) × (create_handle 99 json_value 5 two ≡ some (s', id))
    × IsCreated 99 json_value 5 two s' id
create_handle_example = create_handle_lem 99 json_value 5 two two-IsValid (omega arith)

take_plugin_handles_example :
    let own = owned_by 9 (find 2 two.used_handles) in
    (find 2 (take_plugin_handles 9 two).1
      ≡ (if own then detached (find 2 two.used_handles) else none))
    × (find 2 (take_plugin_handles 9 two).0.used_handles
        ≡ (if own then detached (find 2 two.used_handles) else find 2 two.used_handles))
    × (find 9 (take_plugin_handles 9 two).0.plugin_handles ≡ none)
take_plugin_handles_example = take_plugin_handles_lem 9 two two-IsValid (omega arith) 2

free_handle_example :
    ((free_handle 1 two).deleted ≡ object_of (find 1 two.used_handles) ++ two.deleted)
    × ((j : ℕ)
        → find j (free_handle 1 two).used_handles
          ≡ (if 1 == j then none else find j two.used_handles))
    × (free_handle 1 (free_handle 1 two) ≡ free_handle 1 two)
free_handle_example = free_handle_lem 1 two

mark_handle_closed_example :
    (get_handle json_value 1 (mark_handle_closed 1 two) ≡ none)
    × (is_some (find 1 (mark_handle_closed 1 two).used_handles) ≡ is_some (find 1 two.used_handles))
    × ((free_handle 1 (mark_handle_closed 1 two)).deleted ≡ (free_handle 1 two).deleted)
    × (get_handle json_value 2 (mark_handle_closed 1 two) ≡ get_handle json_value 2 two)
mark_handle_closed_example = mark_handle_closed_lem 1 2 two json_value (omega arith)

transfer_handle_example :
    ((transfer_handle 1 5 two).1 ≡ is_open (find 1 two.used_handles))
    × ((j : ℕ)
        → find j (transfer_handle 1 5 two).0.used_handles ≡ (
            if (1 == j) && (transfer_handle 1 5 two).1
            then with_owner 5 (find j two.used_handles)
            else find j two.used_handles))
    × ((t : HandleType) (j : ℕ) → get_handle t j (transfer_handle 1 5 two).0 ≡ get_handle t j two)
transfer_handle_example = transfer_handle_lem 1 5 two

-- The table with the ids from 1 to n in use.
unfoldable all_used : ℕ → List (ℕ × Handle)
all_used zero = []
all_used (suc n) =
    (suc n, record { type = json_value; pointer = 77; owner = 0; closed = false }) ∷ all_used n

all_used-find : (n id : ℕ) → id ≢ 0 → id ≤ n → is_some (find id (all_used n)) ≡ true
unfolding all_used find
all_used-find zero id ne le = absurd (omega arith)
all_used-find (suc n) id ne le = ground (arith, all_used-find n id ne)

abbrev full_table : HandleManager
full_table = record {
  next_handle = 5;
  used_handles = all_used (2 ^ 32 - 1);
  plugin_handles = [];
  deleted = [];
}

create_handle_full_example : create_handle 77 json_value 9 full_table ≡ some (full_table, 0)
create_handle_full_example =
    create_handle_full 77 json_value 9 full_table (omega arith) (ground arith)
      (λ id ne small. all_used-find (2 ^ 32 - 1) id ne (omega arith))
