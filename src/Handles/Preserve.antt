-- ===== src/Handles/Preserve.antt =====
-- Every operation keeps the two tables in agreement.
use async.Base.{
  ℕ, ◌^◌, ◌<◌, ◌≡◌, ◌≢◌, refl, true, List, none, some, ◌==◌, arith, Bool-cases, Option-cases, inl,
  inr,
}
use async.Base.Tables.{find, put, member, find-put, find-erase}
use async.Handles.{
  HandleType, Handle, HandleManager, handle_manager, disown, enter_handle, free_handle,
  mark_handle_closed, change_owner, transfer_handle,
}
use async.Handles.Invariant.{
  IsValid, lists-add_to_plugin_set, lists-disown, find-add_to_plugin_set_null, find-disown_null,
}

pub handle_manager-IsValid : IsValid handle_manager
unfolding find member
handle_manager-IsValid = record {
  in_range = λ id h e. cc;
  agrees = λ owner id ne. refl;
  no_null = refl;
  cursor = omega arith;
}

-- A handle that is written at an id in range keeps the ids in range.
in_range-put :
    (used : List (ℕ × Handle)) (id : ℕ) (new : Handle)
    → id ≢ 0
    → id < 2 ^ 32
    → ((j : ℕ) (h : Handle) → find j used ≡ some h → (j ≢ 0) × (j < 2 ^ 32))
    → (j : ℕ) (h : Handle) → find j (put id new used) ≡ some h
    → (j ≢ 0) × (j < 2 ^ 32)
in_range-put used id new ne small old j h e = elim (Bool-cases (id == j)) [
  | inl f ↦ (ground arith, ground arith)
  | inr f ↦ old j h (rw (find-put, f) at e)
]

pub enter_handle-IsValid :
    (pointer : ℕ) (t : HandleType) (owner id : ℕ) (s : HandleManager)
    → IsValid s
    → find id s.used_handles ≡ none
    → id < 2 ^ 32
    → IsValid (enter_handle pointer t owner id s).0
unfolding enter_handle
enter_handle-IsValid pointer t owner id s v free small = elim (Bool-cases (id == 0)) [
  | inl z ↦ rw z v
  | inr z ↦ rw z (record {
    in_range = in_range-put s.used_handles id _ (ground arith) small v.in_range;
    agrees = λ q j ne. rw (lists-add_to_plugin_set owner id q j s.plugin_handles ne) (
        rw (v.agrees q j ne) (
          rw find-put (elim (Bool-cases (id == j)) [
            | inl f ↦ let same : j ≡ id = ground arith in rw f (rw same (rw free (ground arith)))
            | inr f ↦ rw f (ground arith)
          ])));
    no_null = find-add_to_plugin_set_null owner id s.plugin_handles v.no_null;
    cursor = omega arith;
  })
]

free_found-IsValid :
    (id : ℕ) (h : Handle) (s : HandleManager)
    → IsValid s
    → find id s.used_handles ≡ some h
    → IsValid (free_handle id s)
unfolding free_handle
free_found-IsValid id h s v e = rw e (record {
  in_range = λ j g f. elim (Bool-cases (id == j)) [
    | inl same ↦ cc (rw (find-erase, same) at f)
    | inr other ↦ v.in_range j g (rw (find-erase, other) at f)
  ];
  agrees = λ q j ne. rw (lists-disown h.owner id q j s.plugin_handles ne) (
      rw find-erase (elim (Bool-cases (id == j)) [
        | inl f ↦
            let same : j ≡ id = ground arith in
            rw f (rw same (rw (v.agrees q id ne) (rw e (ground arith))))
        | inr f ↦ rw f (rw (v.agrees q j ne) (ground arith))
      ]));
  no_null = find-disown_null h.owner id s.plugin_handles v.no_null;
  cursor = v.cursor;
})

pub free_handle-IsValid : (id : ℕ) (s : HandleManager) → IsValid s → IsValid (free_handle id s)
free_handle-IsValid id s v = elim (Option-cases (find id s.used_handles)) [
  | inl e ↦ unfold free_handle in rw e v
  | inr (h, e) ↦ free_found-IsValid id h s v e
]

-- A new record at an id in use, with its owner kept.
put-IsValid :
    (id : ℕ) (h new : Handle) (s : HandleManager)
    → IsValid s
    → find id s.used_handles ≡ some h
    → new.owner ≡ h.owner
    → IsValid (record s { used_handles = put id new s.used_handles })
put-IsValid id h new s v e keeps = record {
  in_range =
      in_range-put s.used_handles id new (v.in_range id h e).0 (v.in_range id h e).1 v.in_range;
  agrees = λ q j ne. rw (v.agrees q j ne) (
      rw find-put (elim (Bool-cases (id == j)) [
        | inl f ↦ let same : j ≡ id = ground arith in rw f (rw same (rw (e, keeps)))
        | inr f ↦ rw f
      ]));
  no_null = v.no_null;
  cursor = v.cursor;
}

pub mark_handle_closed-IsValid :
    (id : ℕ) (s : HandleManager) → IsValid s → IsValid (mark_handle_closed id s)
unfolding mark_handle_closed
mark_handle_closed-IsValid id s v = elim (Option-cases (find id s.used_handles)) [
  | inl e ↦ rw e v
  | inr (h, e) ↦ rw e (put-IsValid id h (record h { closed = true }) s v e refl)
]

change_owner-IsValid :
    (id new : ℕ) (h : Handle) (s : HandleManager)
    → IsValid s
    → find id s.used_handles ≡ some h
    → IsValid (change_owner id new h s)
unfolding change_owner
change_owner-IsValid id new h s v e = record {
  in_range =
      in_range-put s.used_handles id _ (v.in_range id h e).0 (v.in_range id h e).1 v.in_range;
  agrees = λ q j ne.
      rw (lists-add_to_plugin_set new id q j (disown h.owner id s.plugin_handles) ne) (
        rw (lists-disown h.owner id q j s.plugin_handles ne) (
          rw find-put (elim (Bool-cases (id == j)) [
            | inl f ↦
                let same : j ≡ id = ground arith in
                rw f (rw same (rw (v.agrees q id ne) (rw e (ground arith))))
            | inr f ↦ rw f (rw (v.agrees q j ne) (ground arith))
          ])));
  no_null =
      find-add_to_plugin_set_null new id (disown h.owner id s.plugin_handles)
        (find-disown_null h.owner id s.plugin_handles v.no_null);
  cursor = v.cursor;
}

pub transfer_handle-IsValid :
    (id new : ℕ) (s : HandleManager) → IsValid s → IsValid (transfer_handle id new s).0
unfolding transfer_handle
transfer_handle-IsValid id new s v = elim (Option-cases (find id s.used_handles)) [
  | inl e ↦ rw e v
  | inr (h, e) ↦ rw e (elim (Bool-cases h.closed) [
    | inl c ↦ simp c v
    | inr c ↦ simp c (elim (Bool-cases (h.owner == new)) [
      | inl f ↦ simp f v
      | inr f ↦ simp f (change_owner-IsValid id new h s v e)
    ])
  ])
]
