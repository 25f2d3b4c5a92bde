-- ===== src/Handles/Cursor.antt =====
-- The cursor of `CreateHandle` between calls.
use async.Base.{
  ℕ, ◌^◌, ◌<◌, ◌≡◌, ◌≢◌, refl, ap, sym, ◌∙◌, false, List, [], ◌∷◌, none, some, ◌==◌, arith,
  Bool-cases, Option-cases, inl, inr,
}
use async.Base.Tables.{find}
use async.Handles.{
  HandleType, Handle, HandleManager, scan, scan_fuel, enter_handle, create_handle, free_handle,
  mark_handle_closed, change_owner, transfer_handle, take_ids, take_plugin_handles, clean_handles,
}
use async.Handles.Reach.{
  Step, create, free, close, transfer, take, clean, Reach, start, next, Reach-IsValid, scan-IsFree,
  entered_state, enter_handle-zero,
}

-- No handle is in use when the cursor is 1.
abbrev IsUnused : HandleManager → Type 0
IsUnused s = s.next_handle ≡ 1 → s.used_handles ≡ []

module _ (s : HandleManager) (u : IsUnused s) where
  occupied : (id : ℕ) (h : Handle) → find id s.used_handles ≡ some h → s.next_handle ≢ 1
  unfolding find
  occupied id h e one = let empty : find id s.used_handles ≡ none = rw (u one) refl in cc (e, empty)

  free_handle-IsUnused : (id : ℕ) → IsUnused (free_handle id s)
  unfolding free_handle
  free_handle-IsUnused id = elim (Option-cases (find id s.used_handles)) [
    | inl e ↦ rw e u
    | inr (h, e) ↦ rw e (λ one. absurd (occupied id h e one))
  ]

  mark_handle_closed-IsUnused : (id : ℕ) → IsUnused (mark_handle_closed id s)
  unfolding mark_handle_closed
  mark_handle_closed-IsUnused id = elim (Option-cases (find id s.used_handles)) [
    | inl e ↦ rw e u
    | inr (h, e) ↦ rw e (λ one. absurd (occupied id h e one))
  ]

  transfer_handle-IsUnused : (id new_owner : ℕ) → IsUnused (transfer_handle id new_owner s).0
  unfolding transfer_handle change_owner
  transfer_handle-IsUnused id new_owner = elim (Option-cases (find id s.used_handles)) [
    | inl e ↦ rw e u
    | inr (h, e) ↦ rw e (elim (Bool-cases h.closed) [
      | inl c ↦ simp c u
      | inr c ↦ simp c (elim (Bool-cases (h.owner == new_owner)) [
        | inl f ↦ simp f u
        | inr f ↦ simp f (λ one. absurd (occupied id h e one))
      ])
    ])
  ]

  take_ids-empty : (ids : List ℕ) → (take_ids ids []).0 ≡ []
  unfolding take_ids find
  take_ids-empty [] = refl
  take_ids-empty (id ∷ ids) = take_ids-empty ids

  take_plugin_handles-IsUnused : (ctx : ℕ) → IsUnused (take_plugin_handles ctx s).0
  unfolding take_plugin_handles
  take_plugin_handles-IsUnused ctx = elim (Option-cases (find ctx s.plugin_handles)) [
    | inl e ↦ rw e u
    | inr (ids, e) ↦ rw e (λ one. ap (λ used. (take_ids ids used).0) (u one) ∙ take_ids-empty ids)
  ]

  enter_handle-IsUnused :
      (pointer : ℕ) (t : HandleType) (owner id : ℕ)
      → id ≢ 0
      → id < 2 ^ 32
      → IsUnused (enter_handle pointer t owner id s).0
  unfolding enter_handle
  enter_handle-IsUnused pointer t owner id ne small =
      let used_id : (id == 0) ≡ false = ground arith in rw used_id (λ one. absurd (ground arith))

  create_handle-IsUnused :
      (pointer : ℕ) (t : HandleType) (owner id : ℕ) (s' : HandleManager)
      → s.next_handle < 2 ^ 32
      → create_handle pointer t owner s ≡ some (s', id)
      → IsUnused s'
  unfolding create_handle
  create_handle-IsUnused pointer t owner id s' small e =
      elim (Option-cases (scan scan_fuel s.next_handle s.next_handle s.used_handles)) [
        | inl stuck ↦ cc (rw stuck at e)
        | inr (found, done) ↦
            let entered : (enter_handle pointer t owner found s).0 ≡ s' =
              entered_state (enter_handle pointer t owner found s) s' id (rw done at e) in
            elim (Bool-cases (found == 0)) [
              | inl z ↦
                  let none_left : found ≡ 0 = ground arith in
                  let same : s ≡ s' =
                    sym (enter_handle-zero pointer t owner s) ∙ rw none_left at entered in
                  rw (← same) u
              | inr nz ↦
                  let good =
                    scan-IsFree s.used_handles scan_fuel s.next_handle s.next_handle found small
                      done (ground arith) in
                  rw (← entered) (enter_handle-IsUnused pointer t owner found good.0 good.1)
            ]
      ]

clean_handles-IsUnused : (s : HandleManager) → IsUnused (clean_handles s)
unfolding clean_handles
clean_handles-IsUnused s one = refl

Step-IsUnused :
    {s s' : HandleManager} → Step s s' → s.next_handle < 2 ^ 32 → IsUnused s → IsUnused s'
Step-IsUnused {s} {s'} (create pointer t owner id e) small u =
    create_handle-IsUnused s u pointer t owner id s' small e
Step-IsUnused {s} (free id) small u = free_handle-IsUnused s u id
Step-IsUnused {s} (close id) small u = mark_handle_closed-IsUnused s u id
Step-IsUnused {s} (transfer id new_owner) small u = transfer_handle-IsUnused s u id new_owner
Step-IsUnused {s} (take ctx) small u = take_plugin_handles-IsUnused s u ctx
Step-IsUnused {s} clean small u = clean_handles-IsUnused s

-- After any sequence of calls the cursor is 1 only while no handle is in use.
pub Reach-IsUnused : {s : HandleManager} → Reach s → s.next_handle ≡ 1 → s.used_handles ≡ []
Reach-IsUnused start = λ one. refl
Reach-IsUnused (next r st) = Step-IsUnused st (Reach-IsValid r).cursor (Reach-IsUnused r)
