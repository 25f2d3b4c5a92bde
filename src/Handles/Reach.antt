-- ===== src/Handles/Reach.antt =====
-- Any sequence of calls on the handle manager, in any order.
use async.Base.{
  ℕ, zero, suc, ◌^◌, ◌<◌, ◌≡◌, ◌≢◌, refl, sym, ◌∙◌, List, some, ◌==◌, arith, Bool-cases,
  Option-cases, inl, inr,
}
use async.Base.Tables.{find, member, is_some}
use async.Handles.{
  HandleType, Handle, HandleManager, handle_manager, scan, scan_fuel, create_handle, enter_handle,
  free_handle, mark_handle_closed, transfer_handle, take_plugin_handles, clean_handles,
}
use async.Handles.Create.{IsFree, tried, after, is_some-false}
use async.Handles.Invariant.{IsValid}
use async.Handles.Preserve.{
  handle_manager-IsValid, enter_handle-IsValid, free_handle-IsValid, mark_handle_closed-IsValid,
  transfer_handle-IsValid,
}
use async.Handles.Take.{take_plugin_handles-IsValid}

pub data Step : HandleManager → HandleManager → Type 0 where
  create :
      {s s' : HandleManager} (pointer : ℕ) (t : HandleType) (owner id : ℕ)
      → create_handle pointer t owner s ≡ some (s', id)
      → Step s s'
  free : {s : HandleManager} (id : ℕ) → Step s (free_handle id s)
  close : {s : HandleManager} (id : ℕ) → Step s (mark_handle_closed id s)
  transfer : {s : HandleManager} (id new_owner : ℕ) → Step s (transfer_handle id new_owner s).0
  take : {s : HandleManager} (ctx : ℕ) → Step s (take_plugin_handles ctx s).0
  clean : {s : HandleManager} → Step s (clean_handles s)

pub data Reach : HandleManager → Type 0 where
  start : Reach handle_manager
  next : {s s' : HandleManager} → Reach s → Step s s' → Reach s'

-- An id that a scan returns is 0 or free.
pub scan-IsFree :
    (used : List (ℕ × Handle)) (fuel from c id : ℕ)
    → c < 2 ^ 32
    → scan fuel from c used ≡ some id
    → id ≢ 0
    → IsFree used id
unfolding scan
scan-IsFree used zero from c id hc e ne = cc e
scan-IsFree used (suc fuel) from c id hc e ne = elim (Bool-cases (is_some (find (tried c) used))) [
  | inr idle ↦
      let same : tried c ≡ id = cc (rw idle at e) in
      rw (← same) (ground arith, ground arith, is_some-false used (find (tried c) used) idle)
  | inl busy ↦ elim (Bool-cases (after c == from)) [
    | inl back ↦ let none_left : id ≡ 0 = cc (rw (busy, back) at e) in absurd (ne none_left)
    | inr on ↦ scan-IsFree used fuel from (after c) id (omega arith) (rw (busy, on) at e) ne
  ]
]

pub enter_handle-zero :
    (pointer : ℕ) (t : HandleType) (owner : ℕ) (s : HandleManager)
    → (enter_handle pointer t owner 0 s).0 ≡ s
unfolding enter_handle
enter_handle-zero pointer t owner s = refl

pub entered_state :
    (r : HandleManager × ℕ) (s' : HandleManager) (id : ℕ) → some r ≡ some (s', id) → r.0 ≡ s'
entered_state r s' id e = cc e

create_handle-IsValid :
    (pointer : ℕ) (t : HandleType) (owner id : ℕ) (s s' : HandleManager)
    → IsValid s
    → create_handle pointer t owner s ≡ some (s', id)
    → IsValid s'
unfolding create_handle
create_handle-IsValid pointer t owner id s s' v e =
    elim (Option-cases (scan scan_fuel s.next_handle s.next_handle s.used_handles)) [
      | inl stuck ↦ cc (rw stuck at e)
      | inr (found, done) ↦
          let entered : (enter_handle pointer t owner found s).0 ≡ s' =
            entered_state (enter_handle pointer t owner found s) s' id (rw done at e) in
          elim (Bool-cases (found == 0)) [
            | inl z ↦
                let none_left : found ≡ 0 = ground arith in
                let same : s ≡ s' =
                  sym (enter_handle-zero pointer t owner s) ∙ rw none_left at entered in
                rw (← same) v
            | inr nz ↦
                let good =
                  scan-IsFree s.used_handles scan_fuel s.next_handle s.next_handle found v.cursor
                    done (ground arith) in
                rw (← entered) (enter_handle-IsValid pointer t owner found s v good.2 good.1)
          ]
    ]

clean_handles-IsValid : (s : HandleManager) → IsValid s → IsValid (clean_handles s)
unfolding clean_handles find member
clean_handles-IsValid s v = record {
  in_range = λ id h e. cc;
  agrees = λ owner id ne. refl;
  no_null = refl;
  cursor = v.cursor;
}

Step-IsValid : {s s' : HandleManager} → Step s s' → IsValid s → IsValid s'
Step-IsValid {s} {s'} (create pointer t owner id e) v =
    create_handle-IsValid pointer t owner id s s' v e
Step-IsValid {s} (free id) v = free_handle-IsValid id s v
Step-IsValid {s} (close id) v = mark_handle_closed-IsValid id s v
Step-IsValid {s} (transfer id new_owner) v = transfer_handle-IsValid id new_owner s v
Step-IsValid {s} (take ctx) v = take_plugin_handles-IsValid ctx s v
Step-IsValid {s} clean v = clean_handles-IsValid s v

-- After any sequence of calls the ids in use are nonzero and fit an `int`, and the set kept for each
-- plugin lists exactly the handles that it owns.
pub Reach-IsValid : {s : HandleManager} → Reach s → IsValid s
Reach-IsValid start = handle_manager-IsValid
Reach-IsValid (next r st) = Step-IsValid st (Reach-IsValid r)
