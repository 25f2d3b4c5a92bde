-- ===== src/Handles/Behave.antt =====
-- `FreeHandle`, `MarkHandleClosed` and `TransferHandle`: what their callers see.
use async.Base.{
  ℕ, ◌≡◌, ◌≢◌, refl, ap, sym, ◌∙◌, Bool, true, false, not, ◌&&◌, List, [], ◌∷◌, ◌++◌, Option, none,
  some, ◌==◌, if◌then◌else◌, arith, Bool-cases, Option-cases, inl, inr,
}
use async.Base.Tables.{find, find-put, find-erase, is_some}
use async.Handles.{
  HandleType, http_request, json_value, tcp_socket, udp_socket, ws_socket, linked_list, iterator,
  no_handle, Handle, HandleManager, as_type, get_handle, delete_handle_pointer, free_handle,
  mark_handle_closed, change_owner, transfer_handle,
}

-- The object that a handle stands for, as the type of the handle and the address; there is none for an
-- id that is not in use, and for a handle without a type.
abbrev pub object_of : Option Handle → List (HandleType × ℕ)
object_of none = []
object_of (some h) = elim h.type [
  | no_handle ↦ []
  | http_request ↦ (http_request, h.pointer) ∷ []
  | json_value ↦ (json_value, h.pointer) ∷ []
  | tcp_socket ↦ (tcp_socket, h.pointer) ∷ []
  | udp_socket ↦ (udp_socket, h.pointer) ∷ []
  | ws_socket ↦ (ws_socket, h.pointer) ∷ []
  | linked_list ↦ (linked_list, h.pointer) ∷ []
  | iterator ↦ (iterator, h.pointer) ∷ []
]

delete_handle_pointer_lem :
    (t : HandleType) (p owner : ℕ) (closed : Bool) (log : List (HandleType × ℕ))
    → delete_handle_pointer (record { type = t; pointer = p; owner = owner; closed = closed }) log
      ≡ object_of (some (record { type = t; pointer = p; owner = owner; closed = closed })) ++ log
unfolding delete_handle_pointer
delete_handle_pointer_lem http_request p owner closed log = refl
delete_handle_pointer_lem json_value p owner closed log = refl
delete_handle_pointer_lem tcp_socket p owner closed log = refl
delete_handle_pointer_lem udp_socket p owner closed log = refl
delete_handle_pointer_lem ws_socket p owner closed log = refl
delete_handle_pointer_lem linked_list p owner closed log = refl
delete_handle_pointer_lem iterator p owner closed log = refl
delete_handle_pointer_lem no_handle p owner closed log = refl

find-free_handle :
    (id j : ℕ) (s : HandleManager)
    → find j (free_handle id s).used_handles ≡ (if id == j then none else find j s.used_handles)
unfolding free_handle
find-free_handle id j s = elim (Option-cases (find id s.used_handles)) [
  | inl e ↦ rw e (elim (Bool-cases (id == j)) [
    | inl f ↦ let same : j ≡ id = ground arith in rw f (rw same e)
    | inr f ↦ rw f
  ])
  | inr (h, e) ↦ rw e (find-erase id j s.used_handles)
]

-- Freeing a handle deletes its object, unless the id is not in use or the handle has none, gives up
-- the id, leaves the other handles as they are, and does nothing when it is done again.
pub free_handle_lem :
    (id : ℕ) (s : HandleManager)
    → ((free_handle id s).deleted ≡ object_of (find id s.used_handles) ++ s.deleted)
      × ((j : ℕ)
          → find j (free_handle id s).used_handles
            ≡ (if id == j then none else find j s.used_handles))
      × (free_handle id (free_handle id s) ≡ free_handle id s)
free_handle_lem id s = (
  elim (Option-cases (find id s.used_handles)) [
    | inl e ↦ unfold free_handle in rw e
    | inr (h, e) ↦
        unfold free_handle in
        rw e (delete_handle_pointer_lem h.type h.pointer h.owner h.closed s.deleted)
  ],
  (λ j. find-free_handle id j s),
  freed_again (free_handle id s) (find-free_handle id id s ∙ ground arith),
)
  where
    freed_again : (s : HandleManager) → find id s.used_handles ≡ none → free_handle id s ≡ s
    freed_again s e = unfold free_handle in rw e

abbrev closed_entry : Option Handle → Option Handle
closed_entry none = none
closed_entry (some h) = some (record h { closed = true })

find-mark_handle_closed :
    (id j : ℕ) (s : HandleManager)
    → find j (mark_handle_closed id s).used_handles
      ≡ (if id == j then closed_entry (find j s.used_handles) else find j s.used_handles)
unfolding mark_handle_closed
find-mark_handle_closed id j s = elim (Bool-cases (id == j)) [
  | inl f ↦
      let same : j ≡ id = ground arith in
      rw f (
        rw same (elim (Option-cases (find id s.used_handles)) [
          | inl e ↦ rw e e
          | inr (h, e) ↦ rw e (find-put id id _ s.used_handles ∙ ground arith)
        ]))
  | inr f ↦ rw f (elim (Option-cases (find id s.used_handles)) [
    | inl e ↦ rw e
    | inr (h, e) ↦ rw e (rw (find-put, f))
  ])
]

as_type-closed : (t : HandleType) (o : Option Handle) → as_type t (closed_entry o) ≡ none
as_type-closed t none = refl
as_type-closed t (some h) = ground arith

object_of-closed : (o : Option Handle) → object_of (closed_entry o) ≡ object_of o
object_of-closed none = refl
object_of-closed (some h) = refl

is_some-closed : (o : Option Handle) → is_some (closed_entry o) ≡ is_some o
is_some-closed none = refl
is_some-closed (some h) = refl

deleted-mark_handle_closed :
    (id : ℕ) (s : HandleManager) → (mark_handle_closed id s).deleted ≡ s.deleted
unfolding mark_handle_closed
deleted-mark_handle_closed id s = elim (Option-cases (find id s.used_handles)) [
  | inl e ↦ rw e
  | inr (h, e) ↦ rw e
]

-- A handle that is marked closed is found by no getter, its id stays in use, its object is still
-- deleted when it is freed, and the getters find every other handle as before.
pub mark_handle_closed_lem :
    (id j : ℕ) (s : HandleManager) (t : HandleType)
    → j ≢ id
    → (get_handle t id (mark_handle_closed id s) ≡ none)
      × (is_some (find id (mark_handle_closed id s).used_handles)
          ≡ is_some (find id s.used_handles))
      × ((free_handle id (mark_handle_closed id s)).deleted ≡ (free_handle id s).deleted)
      × (get_handle t j (mark_handle_closed id s) ≡ get_handle t j s)
unfolding get_handle
mark_handle_closed_lem id j s t ne =
    let here : find id (mark_handle_closed id s).used_handles
        ≡ closed_entry (find id s.used_handles) =
      find-mark_handle_closed id id s ∙ ground arith in
    (
      ap (as_type t) here ∙ as_type-closed t (find id s.used_handles),
      ap is_some here ∙ is_some-closed (find id s.used_handles),
      (free_handle_lem id (mark_handle_closed id s)).0
          ∙ rw (here, deleted-mark_handle_closed)
              (ap (λ t. t ++ s.deleted) (object_of-closed (find id s.used_handles))
                ∙ sym (free_handle_lem id s).0),
      let other : (id == j) ≡ false = ground arith in
          ap (as_type t) (find-mark_handle_closed id j s ∙ rw other),
    )

abbrev pub is_open : Option Handle → Bool
is_open none = false
is_open (some h) = not h.closed

abbrev pub with_owner : ℕ → Option Handle → Option Handle
with_owner owner none = none
with_owner owner (some h) = some (record h { owner = owner })

as_type-with_owner :
    (t : HandleType) (owner : ℕ) (o : Option Handle) → as_type t (with_owner owner o) ≡ as_type t o
as_type-with_owner t owner none = refl
as_type-with_owner t owner (some h) = refl

as_type-when :
    (t : HandleType) (owner : ℕ) (o : Option Handle) (moved : Bool)
    → as_type t (if moved then with_owner owner o else o) ≡ as_type t o
as_type-when t owner o true = as_type-with_owner t owner o
as_type-when t owner o false = refl

transfer_handle_result :
    (id new : ℕ) (s : HandleManager)
    → (transfer_handle id new s).1 ≡ is_open (find id s.used_handles)
unfolding transfer_handle
transfer_handle_result id new s = elim (Option-cases (find id s.used_handles)) [
  | inl e ↦ rw e
  | inr (h, e) ↦ rw e (ground arith)
]

find-transfer_handle :
    (id new j : ℕ) (s : HandleManager)
    → find j (transfer_handle id new s).0.used_handles ≡ (
        if (id == j) && (transfer_handle id new s).1
        then with_owner new (find j s.used_handles)
        else find j s.used_handles)
unfolding transfer_handle change_owner
find-transfer_handle id new j s = elim (Option-cases (find id s.used_handles)) [
  | inl e ↦ rw e (ground arith)
  | inr (h, e) ↦ rw e (elim (Bool-cases h.closed) [
    | inl c ↦ simp c (ground arith)
    | inr c ↦ simp c (elim (Bool-cases (h.owner == new)) [
      | inl f ↦ simp f (elim (Bool-cases (id == j)) [
        | inl g ↦
            let same : j ≡ id = ground arith in
            let owner : h.owner ≡ new = ground arith in rw g (rw same (rw (e, ← owner)))
        | inr g ↦ rw g
      ])
      | inr f ↦ simp f (
          rw find-put (elim (Bool-cases (id == j)) [
            | inl g ↦ let same : j ≡ id = ground arith in rw g (rw same (rw (e, c)))
            | inr g ↦ rw g
          ]))
    ])
  ])
]

-- `TransferHandle` succeeds exactly on a handle in use that is not closed; then that handle belongs to
-- the new owner, and otherwise nothing changes; no getter sees a difference.
pub transfer_handle_lem :
    (id new : ℕ) (s : HandleManager)
    → ((transfer_handle id new s).1 ≡ is_open (find id s.used_handles))
      × ((j : ℕ)
          → find j (transfer_handle id new s).0.used_handles ≡ (
              if (id == j) && (transfer_handle id new s).1
              then with_owner new (find j s.used_handles)
              else find j s.used_handles))
      × ((t : HandleType) (j : ℕ) → get_handle t j (transfer_handle id new s).0 ≡ get_handle t j s)
unfolding get_handle
transfer_handle_lem id new s = (
  transfer_handle_result id new s,
  (λ j. find-transfer_handle id new j s),
  λ t j.
      ap (as_type t) (find-transfer_handle id new j s)
      ∙ as_type-when t new (find j s.used_handles) ((id == j) && (transfer_handle id new s).1),
)
