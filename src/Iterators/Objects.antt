-- ===== src/Iterators/Objects.antt =====
-- A script's loop over an object, and what a change of the object does to the iterator.
use async.Base.{
  ℕ, zero, suc, ◌+◌, ◌^◌, ◌<◌, ◌≤◌, ◌≡◌, ◌≢◌, refl, ap, sym, ◌∙◌, Bool, true, false, not, Option,
  none, some, ◌==◌, if◌then◌else◌, arith, Option-cases, inl, inr, Bytes,
}
use async.Data.{DataNode, Fields, no_fields, field, object, size_fields}
use async.Nodes.{Node, bump}
use async.Iterators.{
  DataIterator, over_object, create_object, field_at, step_object, next, advance, fresh,
}

-- `while (it.Next())` with at most `fuel` rounds over an object: the keys and values seen, as the
-- fields of an object, and whether `Next` ended the loop.
abbrev seen_field : Option Bytes → Option DataNode → Fields → Fields
seen_field (some k) (some v) rest = field k v rest
seen_field _ _ rest = rest

unfoldable pub collect_fields : (fuel : ℕ) → Node → DataIterator → Fields × Bool
collect_fields zero n it = (no_fields, false)
collect_fields (suc fuel) n it =
    let now = next n it in
    let rest = collect_fields fuel n now.0 in
    if now.1 then (seen_field now.0.obj_key now.0.value rest.0, rest.1) else (no_fields, true)

-- The fields from a position on.
fields_from : ℕ → Fields → Fields
fields_from zero fs = fs
fields_from (suc i) no_fields = no_fields
fields_from (suc i) (field k v fs) = fields_from i fs

fields_from-end : (i : ℕ) (fs : Fields) → field_at i fs ≡ none → fields_from i fs ≡ no_fields
unfolding fields_from field_at
fields_from-end zero no_fields e = refl
fields_from-end (suc i) no_fields e = refl
fields_from-end zero (field k v fs) e = cc e
fields_from-end (suc i) (field k v fs) e = fields_from-end i fs e

fields_from-field :
    (i : ℕ) (fs : Fields) (k : Bytes) (v : DataNode)
    → field_at i fs ≡ some (k, v)
    → (fields_from i fs ≡ field k v (fields_from (suc i) fs)) × (i < size_fields fs)
unfolding fields_from field_at size_fields
fields_from-field i no_fields k v e = cc e
fields_from-field zero (field j u fs) k v e =
    let same_key : j ≡ k = cc e in
    let same : u ≡ v = cc e in rw (same_key, same) (refl, omega arith)
fields_from-field (suc i) (field j u fs) k v e =
    let rest = fields_from-field i fs k v e in (rest.0, omega (arith, rest.1))

next-fields :
    (n : Node) (it : DataIterator) (fs : Fields)
    → n.value ≡ object fs
    → it.version ≡ n.version
    → it.type ≡ over_object
    → next n it ≡ step_object it (field_at it.position fs)
unfolding next
next-fields n it fs e same t =
    let current : (n.version == it.version) ≡ true = ground arith in
    ap (λ b. if not b then (it, false) else advance it.type n.value it) current
    ∙ ap (λ ty. advance ty n.value it) t
    ∙ ap (λ d. advance over_object d it) e

collect_fields-more :
    (fuel : ℕ) (n : Node) (it it' : DataIterator) (k : Bytes) (v : DataNode)
    → next n it ≡ (it', true)
    → it'.obj_key ≡ some k
    → it'.value ≡ some v
    → collect_fields (suc fuel) n it
      ≡ (field k v (collect_fields fuel n it').0, (collect_fields fuel n it').1)
unfolding collect_fields
collect_fields-more fuel n it it' k v e ek ev =
    ap
      (λ (now : DataIterator × Bool).
        let rest = collect_fields fuel n now.0 in
        if now.1 then (seen_field now.0.obj_key now.0.value rest.0, rest.1) else (no_fields, true))
      e
    ∙ ap
        (λ o. (seen_field o it'.value (collect_fields fuel n it').0, (collect_fields fuel n it').1))
        ek
    ∙ ap (λ o. (seen_field (some k) o (collect_fields fuel n it').0, (collect_fields fuel n it').1))
        ev

collect_fields-done :
    (fuel : ℕ) (n : Node) (it : DataIterator)
    → next n it ≡ (it, false)
    → collect_fields (suc fuel) n it ≡ (no_fields, true)
unfolding collect_fields
collect_fields-done fuel n it e =
    ap
      (λ (now : DataIterator × Bool).
        let rest = collect_fields fuel n now.0 in
        if now.1 then (seen_field now.0.obj_key now.0.value rest.0, rest.1) else (no_fields, true))
      e

collect_fields-from :
    (fuel : ℕ) (n : Node) (it : DataIterator) (fs : Fields)
    → n.value ≡ object fs
    → it.version ≡ n.version
    → it.type ≡ over_object
    → size_fields fs < fuel + it.position
    → it.position ≤ size_fields fs
    → collect_fields fuel n it ≡ (fields_from it.position fs, true)
collect_fields-from zero n it fs e same t enough within = absurd (omega arith)
collect_fields-from (suc fuel) n it fs e same t enough within =
    let now = next-fields n it fs e same t in
    elim (Option-cases (field_at it.position fs)) [
      | inl done ↦
          collect_fields-done fuel n it (now ∙ ap (step_object it) done)
          ∙ ap (λ r. (r, true)) (sym (fields_from-end it.position fs done))
      | inr ((k, v), found) ↦
          let (here, inside) = fields_from-field it.position fs k v found in
          let it' : DataIterator = record it {
            position = it.position + 1;
            obj_key = some k;
            value = some v;
          } in
          let rest = collect_fields-from fuel n it' fs e same t (omega arith) (omega arith) in
          let after : fields_from (suc it.position) fs ≡ fields_from (it.position + 1) fs =
            ap (λ i. fields_from i fs) (omega arith) in
          collect_fields-more fuel n it it' k v (now ∙ ap (step_object it) found) refl refl
          ∙ ap (λ (r : Fields × Bool). (field k v r.0, r.1)) rest
          ∙ ap (λ r. (r, true)) (ap (field k v) (sym after) ∙ sym here)
    ]

-- A loop over a new iterator of an object that is not changed meanwhile sees every entry once, in the
-- order of the map, and ends.
pub collect_fields-create_object :
    (fuel : ℕ) (n : Node) (fs : Fields) (it : DataIterator)
    → n.value ≡ object fs
    → create_object (some n) ≡ some it
    → size_fields fs < fuel
    → collect_fields fuel n it ≡ (fs, true)
unfolding create_object fields_from
collect_fields-create_object fuel n fs it e made enough =
    let fresh_it : fresh over_object n.version ≡ it = cc (rw e at made) in
    let run =
      collect_fields-from fuel n (fresh over_object n.version) fs e refl refl (omega arith)
        (omega arith) in
    ap (collect_fields fuel n) (sym fresh_it) ∙ run

pub bump-ne : (v : ℕ) → v < 2 ^ 24 → bump v ≢ v
bump-ne v h = ground arith

pub next-stale : (n : Node) (it : DataIterator) → it.version ≢ n.version → next n it ≡ (it, false)
unfolding next
next-stale n it ne =
    let old : (n.version == it.version) ≡ false = ground arith in
    ap (λ b. if not b then (it, false) else advance it.type n.value it) old
