-- ===== src/Handles/Fresh.antt =====
-- `CreateHandle` returns, with a new handle, as long as some id is free.
use async.Base.{
  ℕ, zero, suc, ◌+◌, ◌-◌, ◌%◌, ◌^◌, ◌≤◌, ◌<◌, ◌≡◌, ◌≢◌, refl, ap, ◌∙◌, true, false, List, [], ◌∷◌,
  none, some, ◌==◌, arith, Bool-cases, inl, inr, length,
}
use async.Base.Tables.{find, is_some, member, remove, member-remove, find-put}
use async.Handles.{Handle, HandleType, HandleManager, scan, scan_fuel, create_handle, enter_handle}
use async.Handles.Create.{ahead, IsFree, scan_finds, scan_passes}
use async.Handles.Invariant.{IsValid}
use async.Handles.Preserve.{enter_handle-IsValid}

length-remove : (k : ℕ) (s : List ℕ) → length (remove k s) ≤ length s
unfolding remove
length-remove k [] = omega arith
length-remove k (j ∷ s) = ground (arith, length-remove k s)

length-remove-member : (k : ℕ) (s : List ℕ) → member k s ≡ true → length (remove k s) < length s
unfolding remove member
length-remove-member k [] h = cc
length-remove-member k (j ∷ s) h = ground (arith, length-remove k s, length-remove-member k s)

-- Fewer than n numbers miss one below n.
missing : (n : ℕ) (s : List ℕ) → length s < n → (k : ℕ) × (k < n) × (member k s ≡ false)
missing zero s h = absurd (omega arith)
missing (suc n) s h = elim (Bool-cases (member n s)) [
  | inr out ↦ (n, omega arith, out)
  | inl within ↦
      let (k, below, out) =
        missing n (remove n s) (omega (arith, length-remove-member n s within)) in
      (k, omega arith, ground (arith, member-remove n k s))
]

-- The ids in use, less one each.
predecessors : List (ℕ × Handle) → List ℕ
predecessors [] = []
predecessors ((id, h) ∷ used) = (id - 1) ∷ predecessors used

length-predecessors : (used : List (ℕ × Handle)) → length (predecessors used) ≡ length used
unfolding predecessors
length-predecessors [] = refl
length-predecessors ((id, h) ∷ used) = ap suc (length-predecessors used)

find-not_predecessor :
    (k : ℕ) (used : List (ℕ × Handle))
    → member k (predecessors used) ≡ false
    → find (suc k) used ≡ none
unfolding predecessors member find
find-not_predecessor k [] h = refl
find-not_predecessor k ((id, g) ∷ used) h = ground (arith, find-not_predecessor k used)

-- With less than 2 ^ 32 - 1 handles in use some id is free.
IsFree-id : (used : List (ℕ × Handle)) → length used < 2 ^ 32 - 1 → (k : ℕ) × IsFree used k
IsFree-id used h =
    let (k, below, out) =
      missing (2 ^ 32 - 1) (predecessors used) (omega (arith, length-predecessors used)) in
    (suc k, (omega arith, omega arith, find-not_predecessor k used out))

-- What a new handle is, after `s` and before `s'`.
pub record IsCreated (pointer : ℕ) (t : HandleType) (owner : ℕ) (s s' : HandleManager) (id : ℕ)
    : Type 0 where
  pub free : IsFree s.used_handles id
  pub held :
      find id s'.used_handles
      ≡ some (record { type = t; pointer = pointer; owner = owner; closed = false })
  pub others : (j : ℕ) → j ≢ id → find j s'.used_handles ≡ find j s.used_handles
  pub cursor : s'.next_handle ≡ (id + 1) % 2 ^ 32
  pub passes :
      (j : ℕ)
      → j ≢ 0
      → j < 2 ^ 32
      → ahead s.next_handle j < ahead s.next_handle id
      → is_some (find j s.used_handles) ≡ true
  pub valid : IsValid s'

entered-IsCreated :
    (pointer : ℕ) (t : HandleType) (owner : ℕ) (s : HandleManager) (id : ℕ)
    → IsValid s
    → scan scan_fuel s.next_handle s.next_handle s.used_handles ≡ some id
    → IsFree s.used_handles id
    → IsCreated pointer t owner s (enter_handle pointer t owner id s).0 id
unfolding enter_handle
entered-IsCreated pointer t owner s id v done good =
    let nonzero : (id == 0) ≡ false = ground arith in
    let valid = rw nonzero at (enter_handle-IsValid pointer t owner id s v good.2 good.1) in
    rw nonzero (record {
      free = good;
      held = find-put id id _ s.used_handles ∙ ground arith;
      others = λ j ne. find-put id j _ s.used_handles ∙ ground arith;
      cursor = refl;
      passes = λ j ne small before.
          scan_passes s.used_handles scan_fuel s.next_handle s.next_handle id j v.cursor done good.0
            ne small good.1 before;
      valid = valid;
    })

created_result :
    (pointer : ℕ) (t : HandleType) (owner : ℕ) (s : HandleManager) (id : ℕ)
    → scan scan_fuel s.next_handle s.next_handle s.used_handles ≡ some id
    → id ≢ 0
    → create_handle pointer t owner s ≡ some ((enter_handle pointer t owner id s).0, id)
unfolding create_handle enter_handle
created_result pointer t owner s id done ne =
    let nonzero : (id == 0) ≡ false = ground arith in rw (done, nonzero)

-- `CreateHandle` returns for every table with an id to spare: the id is the first free one at or
-- behind the cursor, it was not in use and is not 0, it stands for the new object, the other handles
-- are as before, the cursor stands behind it, and the tables agree.
pub create_handle_lem :
    (pointer : ℕ) (t : HandleType) (owner : ℕ) (s : HandleManager)
    → IsValid s
    → length s.used_handles < 2 ^ 32 - 1
    → (s' : HandleManager) × (id : ℕ) × (create_handle pointer t owner s ≡ some (s', id))
      × IsCreated pointer t owner s s' id
create_handle_lem pointer t owner s v room =
    let (k, free) = IsFree-id s.used_handles room in
    let (id, done, good) =
      scan_finds s.used_handles scan_fuel s.next_handle s.next_handle k v.cursor v.cursor free
        (omega arith) (ground arith) in
    (
      (enter_handle pointer t owner id s).0,
      id,
      created_result pointer t owner s id done good.0,
      entered-IsCreated pointer t owner s id v done good,
    )
