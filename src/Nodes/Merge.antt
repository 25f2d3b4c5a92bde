-- ===== src/Nodes/Merge.antt =====
-- `ObjMerge` and `IntMapMerge`: what is found in the merged map.
use async.Base.{
  ℕ, ◌≡◌, refl, ap, sym, Bool, true, false, List, Option, none, some, ◌==◌, if◌then◌else◌, arith,
  Bool-cases, Option-cases, inl, inr, Bytes, bytes_eq, bytes_eq→eq,
}
use async.Data.{
  DataNode, Fields, Entries, no_fields, field, no_entries, entry, object, int_map, has_field,
  has_entry, put_field, put_entry,
}
use async.Nodes.{Node, deep_copy, find_field, find_entry}
use async.Nodes.Objects.{merge_field, merge_fields, obj_merge, obj_find}
use async.Nodes.IntMaps.{merge_entry, merge_entries, int_map_merge, int_map_find}

-- What a key stands for after the merge, from what it stood for in the two maps.
abbrev pub merged : Bool → Option DataNode → Option DataNode → Option DataNode
merged overwrite old none = old
merged overwrite none (some w) = some (deep_copy w)
merged overwrite (some v) (some w) = if overwrite then some (deep_copy w) else some v

abbrev pub AreDistinctFields : Fields → Type 0
AreDistinctFields no_fields = Unit
AreDistinctFields (field k v fs) = (has_field k fs ≡ false) × AreDistinctFields fs

abbrev pub AreDistinctEntries : Entries → Type 0
AreDistinctEntries no_entries = Unit
AreDistinctEntries (entry k v es) = (has_entry k es ≡ false) × AreDistinctEntries es

pub find_field-put :
    (k j : Bytes) (v : DataNode) (fs : Fields)
    → find_field j (put_field k v fs) ≡ (if bytes_eq k j then some v else find_field j fs)
unfolding find_field put_field
find_field-put k j v no_fields = refl
find_field-put k j v (field i w fs) = elim (Bool-cases (bytes_eq i k)) [
  | inl e ↦ let same : i ≡ k = bytes_eq→eq i k e in rw e (rw same (ground arith))
  | inr e ↦ rw e (
      rw (find_field-put k j v fs) (elim (Bool-cases (bytes_eq k j)) [
        | inl f ↦ let same : k ≡ j = bytes_eq→eq k j f in rw f (rw (← same, e))
        | inr f ↦ rw f
      ]))
]

find_field-missing : (k : Bytes) (fs : Fields) → has_field k fs ≡ false → find_field k fs ≡ none
unfolding find_field has_field
find_field-missing k no_fields h = refl
find_field-missing k (field j w fs) h = ground (arith, find_field-missing k fs)

find_field-merge_field :
    (overwrite : Bool) (k j : Bytes) (w : DataNode) (fs : Fields) (dropped : List DataNode)
    → find_field j (merge_field overwrite k w (fs, dropped)).0
      ≡ (if bytes_eq k j then merged overwrite (find_field j fs) (some w) else find_field j fs)
unfolding merge_field
find_field-merge_field overwrite k j w fs dropped =
    let there : bytes_eq k j ≡ true → find_field j fs ≡ find_field k fs =
      λ f. ap (λ i. find_field i fs) (sym (bytes_eq→eq k j f)) in
    elim (Option-cases (find_field k fs)) [
      | inl e ↦ rw e (
          rw (find_field-put k j (deep_copy w) fs)
            (elim (Bool-cases (bytes_eq k j)) [ inl f ↦ rw (f, there f, e) | inr f ↦ rw f ]))
      | inr (v, e) ↦ rw e (elim (Bool-cases overwrite) [
        | inl o ↦ rw o (
            rw (find_field-put k j (deep_copy w) fs)
              (elim (Bool-cases (bytes_eq k j)) [ inl f ↦ rw (f, there f, e) | inr f ↦ rw f ]))
        | inr o ↦
            rw o (elim (Bool-cases (bytes_eq k j)) [ inl f ↦ rw (f, there f, e) | inr f ↦ rw f ])
      ])
    ]

find_field-merge_fields :
    (overwrite : Bool) (j : Bytes) (gs : Fields) (made : Fields × List DataNode)
    → AreDistinctFields gs
    → find_field j (merge_fields overwrite gs made).0
      ≡ merged overwrite (find_field j made.0) (find_field j gs)
unfolding merge_fields find_field
find_field-merge_fields overwrite j no_fields made h = refl
find_field-merge_fields overwrite j (field k w gs) made h =
    let rest = find_field-merge_fields overwrite j gs (merge_field overwrite k w made) h.1 in
    let now = find_field-merge_field overwrite k j w made.0 made.1 in
    elim (Bool-cases (bytes_eq k j)) [
      | inl f ↦
          let same : k ≡ j = bytes_eq→eq k j f in
          let gone : find_field j gs ≡ none = find_field-missing j gs (rw (← same) h.0) in
          rw (rest, now, f, gone)
      | inr f ↦ rw (rest, now, f)
    ]

-- Where `other` is an object with distinct keys, a key of the merged object stands for a copy of what
-- it stands for in `other`, if it was not there before or is to be overwritten; every other key
-- keeps its value.
pub obj_merge_lem :
    (overwrite : Bool) (fs gs : Fields) (n : Node) (j : Bytes)
    → n.value ≡ object fs
    → AreDistinctFields gs
    → obj_find j (obj_merge (some (object gs)) overwrite n)
      ≡ merged overwrite (find_field j fs) (find_field j gs)
unfolding obj_merge obj_find
obj_merge_lem overwrite fs gs n j e h =
    rw e (find_field-merge_fields overwrite j gs (fs, n.dropped) h)

same_key : (k j : ℕ) → (k == j) ≡ true → k ≡ j
same_key k j h = ground arith

pub find_entry-put :
    (k j : ℕ) (v : DataNode) (fs : Entries)
    → find_entry j (put_entry k v fs) ≡ (if k == j then some v else find_entry j fs)
unfolding find_entry put_entry
find_entry-put k j v no_entries = refl
find_entry-put k j v (entry i w fs) = elim (Bool-cases (i == k)) [
  | inl e ↦ let same : i ≡ k = ground arith in rw e (rw same (ground arith))
  | inr e ↦ rw e (
      rw (find_entry-put k j v fs) (elim (Bool-cases (k == j)) [
        | inl f ↦ let same : k ≡ j = ground arith in rw f (rw (← same, e))
        | inr f ↦ rw f
      ]))
]

find_entry-missing : (k : ℕ) (fs : Entries) → has_entry k fs ≡ false → find_entry k fs ≡ none
unfolding find_entry has_entry
find_entry-missing k no_entries h = refl
find_entry-missing k (entry j w fs) h = ground (arith, find_entry-missing k fs)

find_entry-merge_entry :
    (overwrite : Bool) (k j : ℕ) (w : DataNode) (fs : Entries) (dropped : List DataNode)
    → find_entry j (merge_entry overwrite k w (fs, dropped)).0
      ≡ (if k == j then merged overwrite (find_entry j fs) (some w) else find_entry j fs)
unfolding merge_entry
find_entry-merge_entry overwrite k j w fs dropped =
    let there : k == j ≡ true → find_entry j fs ≡ find_entry k fs =
      λ f. ap (λ i. find_entry i fs) (sym (same_key k j f)) in
    elim (Option-cases (find_entry k fs)) [
      | inl e ↦ rw e (
          rw (find_entry-put k j (deep_copy w) fs)
            (elim (Bool-cases (k == j)) [ inl f ↦ rw (f, there f, e) | inr f ↦ rw f ]))
      | inr (v, e) ↦ rw e (elim (Bool-cases overwrite) [
        | inl o ↦ rw o (
            rw (find_entry-put k j (deep_copy w) fs)
              (elim (Bool-cases (k == j)) [ inl f ↦ rw (f, there f, e) | inr f ↦ rw f ]))
        | inr o ↦ rw o (elim (Bool-cases (k == j)) [ inl f ↦ rw (f, there f, e) | inr f ↦ rw f ])
      ])
    ]

find_entry-merge_entries :
    (overwrite : Bool) (j : ℕ) (gs : Entries) (made : Entries × List DataNode)
    → AreDistinctEntries gs
    → find_entry j (merge_entries overwrite gs made).0
      ≡ merged overwrite (find_entry j made.0) (find_entry j gs)
unfolding merge_entries find_entry
find_entry-merge_entries overwrite j no_entries made h = refl
find_entry-merge_entries overwrite j (entry k w gs) made h =
    let rest = find_entry-merge_entries overwrite j gs (merge_entry overwrite k w made) h.1 in
    let now = find_entry-merge_entry overwrite k j w made.0 made.1 in
    elim (Bool-cases (k == j)) [
      | inl f ↦
          let same : k ≡ j = ground arith in
          let gone : find_entry j gs ≡ none = find_entry-missing j gs (rw (← same) h.0) in
          rw (rest, now, f, gone)
      | inr f ↦ rw (rest, now, f)
    ]

-- Where `other` is an int map with distinct keys, a key of the merged int map stands for a copy of what
-- it stands for in `other`, if it was not there before or is to be overwritten; every other key
-- keeps its value.
pub int_map_merge_lem :
    (overwrite : Bool) (fs gs : Entries) (n : Node) (j : ℕ)
    → n.value ≡ int_map fs
    → AreDistinctEntries gs
    → int_map_find j (int_map_merge (some (int_map gs)) overwrite n)
      ≡ merged overwrite (find_entry j fs) (find_entry j gs)
unfolding int_map_merge int_map_find
int_map_merge_lem overwrite fs gs n j e h =
    rw e (find_entry-merge_entries overwrite j gs (fs, n.dropped) h)
