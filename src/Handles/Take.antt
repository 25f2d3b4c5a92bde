-- ===== src/Handles/Take.antt =====
-- `TakePluginHandles`: what the loop does to each handle.
use async.Base.{
  ℕ, ◌^◌, ◌<◌, ◌≡◌, ◌≢◌, refl, ap, sym, ◌∙◌, Bool, true, false, List, [], ◌∷◌, Option, none, some,
  ◌==◌, if◌then◌else◌, arith, Bool-cases, Option-cases, inl, inr,
}
use async.Base.Tables.{find, put, member, find-put, find-erase}
use async.Handles.{Handle, HandleManager, or_empty, take_ids, take_plugin_handles, detach_found}
use async.Handles.Invariant.{IsValid, owned_by, lists-erase}

-- The handle without its owner.
abbrev pub detached : Option Handle → Option Handle
detached none = none
detached (some h) = some (record h { owner = 0 })

find-detach_found :
    (id j : ℕ) (used : List (ℕ × Handle))
    → find j (detach_found id (find id used) used)
      ≡ (if id == j then detached (find j used) else find j used)
find-detach_found id j used = elim (Bool-cases (id == j)) [
  | inl f ↦
      let same : id ≡ j = ground arith in
      rw f (
        rw same (elim (Option-cases (find j used)) [
          | inl e ↦ rw e e
          | inr (h, e) ↦ rw e (find-put j j (record h { owner = 0 }) used ∙ ground arith)
        ]))
  | inr f ↦
      rw f
        (elim (Option-cases (find id used)) [ inl e ↦ rw e | inr (h, e) ↦ rw e (rw (find-put, f)) ])
]

detached_twice : (o : Option Handle) → detached (detached o) ≡ detached o
detached_twice none = refl
detached_twice (some h) = refl

-- After the loop exactly the listed handles have lost their owner.
pub find-take_ids :
    (ids : List ℕ) (j : ℕ) (used : List (ℕ × Handle))
    → find j (take_ids ids used).0 ≡ (if member j ids then detached (find j used) else find j used)
unfolding take_ids member
find-take_ids [] j used = refl
find-take_ids (id ∷ ids) j used =
    let rest = find-take_ids ids j (detach_found id (find id used) used) in
    let now = find-detach_found id j used in
    elim (Bool-cases (id == j)) [
      | inl f ↦
          rw (rest, now, f)
            (elim (Bool-cases (member j ids)) [
              | inl g ↦ rw g (detached_twice (find j used))
              | inr g ↦ rw g
            ])
      | inr f ↦ rw (rest, now, f)
    ]

-- The handles returned are the listed ones that are in use, without their owner.
pub find-taken :
    (ids : List ℕ) (j : ℕ) (used : List (ℕ × Handle))
    → find j (take_ids ids used).1 ≡ (if member j ids then detached (find j used) else none)
unfolding take_ids member find
find-taken [] j used = refl
find-taken (id ∷ ids) j used =
    let rest = find-taken ids j (detach_found id (find id used) used) in
    let now = find-detach_found id j used in
    elim (Bool-cases (id == j)) [
      | inl f ↦
          let same : id ≡ j = ground arith in
          rw f (elim (Option-cases (find j used)) [
            | inl e ↦
                let here : find id used ≡ none = rw same e in
                rw (here, e) (rw (find-taken ids j used, e) (ground arith))
            | inr (h, e) ↦ let here : find id used ≡ some h = rw same e in rw (here, e) (rw f)
          ])
      | inr f ↦ rw f (elim (Option-cases (find id used)) [
        | inl e ↦ rw e (find-taken ids j used)
        | inr (h, e) ↦
            rw e (
              rw f
                (rw (find-taken ids j (put id (record h { owner = 0 }) used)) (rw (find-put, f))))
      ])
    ]

-- The loop keeps the ids in range.
in_range-take_ids :
    (s : HandleManager) (ids : List ℕ)
    → IsValid s
    → (j : ℕ) (h : Handle) → find j (take_ids ids s.used_handles).0 ≡ some h
    → (j ≢ 0) × (j < 2 ^ 32)
in_range-take_ids s ids v j h e =
    let after = sym (find-take_ids ids j s.used_handles) ∙ e in
    elim (Option-cases (find j s.used_handles)) [
      | inl none_there ↦ elim (Bool-cases (member j ids)) [
        | inl g ↦ cc (rw (none_there, g) at after)
        | inr g ↦ cc (rw (none_there, g) at after)
      ]
      | inr (g, there) ↦ v.in_range j g there
    ]

-- Taking a plugin's handles away leaves the ownership by the others.
owned_by-detached :
    (ctx q : ℕ) (o : Option Handle) (listed : Bool)
    → listed ≡ owned_by ctx o
    → q ≢ 0
    → (if ctx == q then false else owned_by q o) ≡ owned_by q (if listed then detached o else o)
owned_by-detached ctx q none true h ne = ground arith
owned_by-detached ctx q none false h ne = ground arith
owned_by-detached ctx q (some h) true e ne = ground arith
owned_by-detached ctx q (some h) false e ne = ground arith

take_found-IsValid :
    (ctx : ℕ) (ids : List ℕ) (s : HandleManager)
    → IsValid s
    → find ctx s.plugin_handles ≡ some ids
    → IsValid (take_plugin_handles ctx s).0
unfolding take_plugin_handles
take_found-IsValid ctx ids s v e =
    let not_null : ctx ≢ 0 = λ z. let at_null = rw z at e in cc (at_null, v.no_null) in
    rw e (record {
      in_range = in_range-take_ids s ids v;
      agrees = λ q j ne.
          let listed : member j ids ≡ owned_by ctx (find j s.used_handles) =
            sym (ap (λ o. member j (or_empty o)) e) ∙ v.agrees ctx j not_null in
          rw (lists-erase, find-take_ids, v.agrees q j ne)
            (owned_by-detached ctx q (find j s.used_handles) (member j ids) listed ne);
      no_null = find-erase ctx 0 s.plugin_handles ∙ ground arith;
      cursor = v.cursor;
    })

pub take_plugin_handles-IsValid :
    (ctx : ℕ) (s : HandleManager) → IsValid s → IsValid (take_plugin_handles ctx s).0
take_plugin_handles-IsValid ctx s v = elim (Option-cases (find ctx s.plugin_handles)) [
  | inl e ↦ unfold take_plugin_handles in rw e v
  | inr (ids, e) ↦ take_found-IsValid ctx ids s v e
]

-- Unloading a plugin hands out exactly the handles that it owned, each without its owner, forgets
-- its set, and leaves every other handle as it is.
pub take_plugin_handles_lem :
    (ctx : ℕ) (s : HandleManager)
    → IsValid s
    → ctx ≢ 0
    → (j : ℕ)
    → let own = owned_by ctx (find j s.used_handles) in
      (find j (take_plugin_handles ctx s).1
        ≡ (if own then detached (find j s.used_handles) else none))
      × (find j (take_plugin_handles ctx s).0.used_handles
          ≡ (if own then detached (find j s.used_handles) else find j s.used_handles))
      × (find ctx (take_plugin_handles ctx s).0.plugin_handles ≡ none)
unfolding take_plugin_handles
take_plugin_handles_lem ctx s v ne j = elim (Option-cases (find ctx s.plugin_handles)) [
  | inl e ↦
      let not_owned : owned_by ctx (find j s.used_handles) ≡ false =
        sym (v.agrees ctx j ne) ∙ ap (λ o. member j (or_empty o)) e ∙ unfold member in refl in
      rw (e, not_owned) (unfold find in refl, refl, e)
  | inr (ids, e) ↦
      let listed : member j ids ≡ owned_by ctx (find j s.used_handles) =
        sym (ap (λ o. member j (or_empty o)) e) ∙ v.agrees ctx j ne in
      rw (e, ← listed)
        (
          find-taken ids j s.used_handles,
          find-take_ids ids j s.used_handles,
          find-erase ctx ctx s.plugin_handles ∙ ground arith,
        )
]
