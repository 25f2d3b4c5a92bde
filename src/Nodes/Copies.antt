-- ===== src/Nodes/Copies.antt =====
-- `DeepCopy` and `Equals` agree: a copy is the value it was made from, and equals it.
use async.Base.{ℕ, ◌≡◌, refl, ap, sym, ◌∙◌, true, false, some, arith, Bytes, bytes_eq_self}
use async.Data.{
  DataNode, Items, Fields, Entries, null, bool, int, float, string, array, object, int_map, binary,
  no_items, item, no_fields, field, no_entries, entry, has_field, has_entry,
}
use async.Data.Maps.{
  append_fields, append_entries, append_fields-nil, append_entries-nil, append_fields_assoc,
  append_entries_assoc, put_field-new, put_entry-new, FieldsApart, EntriesApart, FieldsApart-nil,
  EntriesApart-nil, FieldsApart-snoc, EntriesApart-snoc,
}
use async.Nodes.{
  c_str, deep_copy, copy_items, copy_fields, copy_entries, find_field, find_entry, is_nan, float_eq,
  equals, equals_items, equals_fields, equals_entries,
}

-- Strings without a NUL, floats that are numbers, and maps with distinct keys.
unfoldable mutual
  pub IsPlain : DataNode → Type 0
  IsPlain null = Unit
  IsPlain (bool b) = Unit
  IsPlain (int v) = Unit
  IsPlain (float v) = is_nan v ≡ false
  IsPlain (string s) = c_str s ≡ s
  IsPlain (array xs) = ArePlainItems xs
  IsPlain (object fs) = ArePlainFields fs
  IsPlain (int_map es) = ArePlainEntries es
  IsPlain (binary b) = Unit

  pub ArePlainItems : Items → Type 0
  ArePlainItems no_items = Unit
  ArePlainItems (item v xs) = IsPlain v × ArePlainItems xs

  pub ArePlainFields : Fields → Type 0
  ArePlainFields no_fields = Unit
  ArePlainFields (field k v fs) = (has_field k fs ≡ false) × IsPlain v × ArePlainFields fs

  pub ArePlainEntries : Entries → Type 0
  ArePlainEntries no_entries = Unit
  ArePlainEntries (entry k v es) = (has_entry k es ≡ false) × IsPlain v × ArePlainEntries es

mutual
  unfolding deep_copy IsPlain append_fields append_entries

  copied : (v : DataNode) → IsPlain v → deep_copy v ≡ v
  copied null h = refl
  copied (bool b) h = refl
  copied (int v) h = refl
  copied (float v) h = refl
  copied (string s) h = ap string h
  copied (array xs) h = ap array (copied_items xs h)
  copied (object fs) h = ap object (copied_fields fs no_fields h (FieldsApart-nil fs))
  copied (int_map es) h = ap int_map (copied_entries es no_entries h (EntriesApart-nil es))
  copied (binary b) h = refl

  copied_items : (xs : Items) → ArePlainItems xs → copy_items xs ≡ xs
  copied_items no_items h = refl
  copied_items (item v xs) h = rw (copied v h.0, copied_items xs h.1)

  copied_fields :
      (fs made : Fields)
      → ArePlainFields fs
      → FieldsApart made fs
      → copy_fields fs made ≡ append_fields made fs
  copied_fields no_fields made h apart = sym (append_fields-nil made)
  copied_fields (field k v fs) made h apart =
      rw (copied v h.1, put_field-new k v made apart.0)
        (copied_fields fs (append_fields made (field k v no_fields)) h.2
            (FieldsApart-snoc k v made fs apart.1 h.0)
          ∙ append_fields_assoc made k v fs)

  copied_entries :
      (es made : Entries)
      → ArePlainEntries es
      → EntriesApart made es
      → copy_entries es made ≡ append_entries made es
  copied_entries no_entries made h apart = sym (append_entries-nil made)
  copied_entries (entry k v es) made h apart =
      rw (copied v h.1, put_entry-new k v made apart.0)
        (copied_entries es (append_entries made (entry k v no_entries)) h.2
            (EntriesApart-snoc k v made es apart.1 h.0)
          ∙ append_entries_assoc made k v es)

find_field-append :
    (k : Bytes) (v : DataNode) (fs gs : Fields)
    → has_field k fs ≡ false
    → find_field k (append_fields fs (field k v gs)) ≡ some v
unfolding find_field append_fields has_field
find_field-append k v no_fields gs h = rw (bytes_eq_self k)
find_field-append k v (field j w fs) gs h = ground (arith, find_field-append k v fs gs)

find_entry-append :
    (k : ℕ) (v : DataNode) (es ds : Entries)
    → has_entry k es ≡ false
    → find_entry k (append_entries es (entry k v ds)) ≡ some v
unfolding find_entry append_entries has_entry
find_entry-append k v no_entries ds h = ground arith
find_entry-append k v (entry j w es) ds h = ground (arith, find_entry-append k v es ds)

float_eq_self : (v : ℕ) → is_nan v ≡ false → float_eq v v ≡ true
unfolding float_eq is_nan
float_eq_self v h = ground arith

mutual
  unfolding equals IsPlain append_fields append_entries

  equal : (v : DataNode) → IsPlain v → equals v v ≡ true
  equal null h = refl
  equal (bool true) h = refl
  equal (bool false) h = refl
  equal (int v) h = ground arith
  equal (float v) h = float_eq_self v h
  equal (string s) h = bytes_eq_self s
  equal (array xs) h = ground (arith, equal_items xs h)
  equal (object fs) h = ground (arith, equal_fields fs no_fields fs refl h (FieldsApart-nil fs))
  equal (int_map es) h = ground (arith, equal_entries es no_entries es refl h (EntriesApart-nil es))
  equal (binary b) h = bytes_eq_self b

  equal_items : (xs : Items) → ArePlainItems xs → equals_items xs xs ≡ true
  equal_items no_items h = refl
  equal_items (item v xs) h = rw (equal v h.0, equal_items xs h.1)

  -- A part of a map against the whole.
  equal_fields :
      (fs before whole : Fields)
      → whole ≡ append_fields before fs
      → ArePlainFields fs
      → FieldsApart before fs
      → equals_fields fs whole ≡ true
  equal_fields no_fields before whole e h apart = refl
  equal_fields (field k v fs) before whole e h apart =
      let rest =
        equal_fields fs (append_fields before (field k v no_fields)) whole
          (e ∙ sym (append_fields_assoc before k v fs)) h.2
          (FieldsApart-snoc k v before fs apart.1 h.0) in
      let here : find_field k whole ≡ some v =
        ap (find_field k) e ∙ find_field-append k v before fs apart.0 in
      rw (here, equal v h.1, rest)

  equal_entries :
      (es before whole : Entries)
      → whole ≡ append_entries before es
      → ArePlainEntries es
      → EntriesApart before es
      → equals_entries es whole ≡ true
  equal_entries no_entries before whole e h apart = refl
  equal_entries (entry k v es) before whole e h apart =
      let rest =
        equal_entries es (append_entries before (entry k v no_entries)) whole
          (e ∙ sym (append_entries_assoc before k v es)) h.2
          (EntriesApart-snoc k v before es apart.1 h.0) in
      let here : find_entry k whole ≡ some v =
        ap (find_entry k) e ∙ find_entry-append k v before es apart.0 in
      rw (here, equal v h.1, rest)

-- The copy of a value whose strings hold no NUL, whose floats are numbers, and whose maps have
-- distinct keys, is that value, and `Equals` says so.
pub deep_copy-equals :
    (v : DataNode) → IsPlain v → (deep_copy v ≡ v) × (equals v (deep_copy v) ≡ true)
deep_copy-equals v h = (copied v h, ap (equals v) (copied v h) ∙ equal v h)
