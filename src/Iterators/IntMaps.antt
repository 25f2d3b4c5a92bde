-- ===== src/Iterators/IntMaps.antt =====
-- A script's loop over an int map, and what a change of the map does to the iterator.
use async.Base.{
  ℕ, zero, suc, ◌+◌, ◌<◌, ◌≤◌, ◌≡◌, refl, ap, sym, ◌∙◌, Bool, true, false, not, Option, none, some,
  ◌==◌, if◌then◌else◌, arith, Option-cases, inl, inr,
}
use async.Data.{DataNode, Entries, no_entries, entry, int_map, size_entries}
use async.Nodes.{Node}
use async.Iterators.{
  DataIterator, over_int_map, create_int_map, entry_at, step_int_map, next, advance, fresh,
}

-- `while (it.Next())` with at most `fuel` rounds over an int map: the keys and values seen, as the
-- entries of an int map, and whether `Next` ended the loop.
abbrev seen_entry : ℕ → Option DataNode → Entries → Entries
seen_entry k (some v) rest = entry k v rest
seen_entry _ _ rest = rest

unfoldable pub collect_entries : (fuel : ℕ) → Node → DataIterator → Entries × Bool
collect_entries zero n it = (no_entries, false)
collect_entries (suc fuel) n it =
    let now = next n it in
    let rest = collect_entries fuel n now.0 in
    if now.1 then (seen_entry now.0.intmap_key now.0.value rest.0, rest.1) else (no_entries, true)

-- The entries from a position on.
entries_from : ℕ → Entries → Entries
entries_from zero es = es
entries_from (suc i) no_entries = no_entries
entries_from (suc i) (entry k v es) = entries_from i es

entries_from-end : (i : ℕ) (es : Entries) → entry_at i es ≡ none → entries_from i es ≡ no_entries
unfolding entries_from entry_at
entries_from-end zero no_entries e = refl
entries_from-end (suc i) no_entries e = refl
entries_from-end zero (entry k v es) e = cc e
entries_from-end (suc i) (entry k v es) e = entries_from-end i es e

entries_from-entry :
    (i : ℕ) (es : Entries) (k : ℕ) (v : DataNode)
    → entry_at i es ≡ some (k, v)
    → (entries_from i es ≡ entry k v (entries_from (suc i) es)) × (i < size_entries es)
unfolding entries_from entry_at size_entries
entries_from-entry i no_entries k v e = cc e
entries_from-entry zero (entry j u es) k v e =
    let same_key : j ≡ k = cc e in
    let same : u ≡ v = cc e in rw (same_key, same) (refl, omega arith)
entries_from-entry (suc i) (entry j u es) k v e =
    let rest = entries_from-entry i es k v e in (rest.0, omega (arith, rest.1))

next-entries :
    (n : Node) (it : DataIterator) (es : Entries)
    → n.value ≡ int_map es
    → it.version ≡ n.version
    → it.type ≡ over_int_map
    → next n it ≡ step_int_map it (entry_at it.position es)
unfolding next
next-entries n it es e same t =
    let current : (n.version == it.version) ≡ true = ground arith in
    ap (λ b. if not b then (it, false) else advance it.type n.value it) current
    ∙ ap (λ ty. advance ty n.value it) t
    ∙ ap (λ d. advance over_int_map d it) e

collect_entries-more :
    (fuel : ℕ) (n : Node) (it it' : DataIterator) (k : ℕ) (v : DataNode)
    → next n it ≡ (it', true)
    → it'.intmap_key ≡ k
    → it'.value ≡ some v
    → collect_entries (suc fuel) n it
      ≡ (entry k v (collect_entries fuel n it').0, (collect_entries fuel n it').1)
unfolding collect_entries
collect_entries-more fuel n it it' k v e ek ev =
    ap
      (λ (now : DataIterator × Bool).
        let rest = collect_entries fuel n now.0 in
        if now.1
        then (seen_entry now.0.intmap_key now.0.value rest.0, rest.1)
        else (no_entries, true))
      e
    ∙ ap
        (λ o.
          (seen_entry o it'.value (collect_entries fuel n it').0, (collect_entries fuel n it').1))
        ek
    ∙ ap (λ o. (seen_entry k o (collect_entries fuel n it').0, (collect_entries fuel n it').1)) ev

collect_entries-done :
    (fuel : ℕ) (n : Node) (it : DataIterator)
    → next n it ≡ (it, false)
    → collect_entries (suc fuel) n it ≡ (no_entries, true)
unfolding collect_entries
collect_entries-done fuel n it e =
    ap
      (λ (now : DataIterator × Bool).
        let rest = collect_entries fuel n now.0 in
        if now.1
        then (seen_entry now.0.intmap_key now.0.value rest.0, rest.1)
        else (no_entries, true))
      e

collect_entries-from :
    (fuel : ℕ) (n : Node) (it : DataIterator) (es : Entries)
    → n.value ≡ int_map es
    → it.version ≡ n.version
    → it.type ≡ over_int_map
    → size_entries es < fuel + it.position
    → it.position ≤ size_entries es
    → collect_entries fuel n it ≡ (entries_from it.position es, true)
collect_entries-from zero n it es e same t enough within = absurd (omega arith)
collect_entries-from (suc fuel) n it es e same t enough within =
    let now = next-entries n it es e same t in
    elim (Option-cases (entry_at it.position es)) [
      | inl done ↦
          collect_entries-done fuel n it (now ∙ ap (step_int_map it) done)
          ∙ ap (λ r. (r, true)) (sym (entries_from-end it.position es done))
      | inr ((k, v), found) ↦
          let (here, inside) = entries_from-entry it.position es k v found in
          let it' : DataIterator = record it {
            position = it.position + 1;
            intmap_key = k;
            value = some v;
          } in
          let rest = collect_entries-from fuel n it' es e same t (omega arith) (omega arith) in
          let after : entries_from (suc it.position) es ≡ entries_from (it.position + 1) es =
            ap (λ i. entries_from i es) (omega arith) in
          collect_entries-more fuel n it it' k v (now ∙ ap (step_int_map it) found) refl refl
          ∙ ap (λ (r : Entries × Bool). (entry k v r.0, r.1)) rest
          ∙ ap (λ r. (r, true)) (ap (entry k v) (sym after) ∙ sym here)
    ]

-- A loop over a new iterator of an int map that is not changed meanwhile sees every entry once, in the
-- order of the map, and ends.
pub collect_entries-create_int_map :
    (fuel : ℕ) (n : Node) (es : Entries) (it : DataIterator)
    → n.value ≡ int_map es
    → create_int_map (some n) ≡ some it
    → size_entries es < fuel
    → collect_entries fuel n it ≡ (es, true)
unfolding create_int_map entries_from
collect_entries-create_int_map fuel n es it e made enough =
    let fresh_it : fresh over_int_map n.version ≡ it = cc (rw e at made) in
    let run =
      collect_entries-from fuel n (fresh over_int_map n.version) es e refl refl (omega arith)
        (omega arith) in
    ap (collect_entries fuel n) (sym fresh_it) ∙ run
