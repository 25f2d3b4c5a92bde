-- ===== src/Data/Maps.antt =====
-- Inserting new keys one after the other builds the map in that order.
use async.Base.{ℕ, false, ◌||◌, ◌≡◌, refl, ap, Bytes, bytes_eq, bytes_eq_comm, ◌==◌, arith}
use async.Data.{
  DataNode, Fields, Entries, no_fields, field, no_entries, entry, has_field, has_entry, put_field,
  put_entry,
}

unfoldable pub append_fields : Fields → Fields → Fields
append_fields no_fields gs = gs
append_fields (field k v fs) gs = field k v (append_fields fs gs)

unfoldable pub append_entries : Entries → Entries → Entries
append_entries no_entries ds = ds
append_entries (entry k v es) ds = entry k v (append_entries es ds)

pub append_fields-nil : (fs : Fields) → append_fields fs no_fields ≡ fs
unfolding append_fields
append_fields-nil no_fields = refl
append_fields-nil (field k v fs) = ap (field k v) (append_fields-nil fs)

pub append_entries-nil : (es : Entries) → append_entries es no_entries ≡ es
unfolding append_entries
append_entries-nil no_entries = refl
append_entries-nil (entry k v es) = ap (entry k v) (append_entries-nil es)

pub append_fields_assoc :
    (fs : Fields) (k : Bytes) (v : DataNode) (gs : Fields)
    → append_fields (append_fields fs (field k v no_fields)) gs ≡ append_fields fs (field k v gs)
unfolding append_fields
append_fields_assoc no_fields k v gs = refl
append_fields_assoc (field j w fs) k v gs = ap (field j w) (append_fields_assoc fs k v gs)

pub append_entries_assoc :
    (es : Entries) (k : ℕ) (v : DataNode) (ds : Entries)
    → append_entries (append_entries es (entry k v no_entries)) ds
      ≡ append_entries es (entry k v ds)
unfolding append_entries
append_entries_assoc no_entries k v ds = refl
append_entries_assoc (entry j w es) k v ds = ap (entry j w) (append_entries_assoc es k v ds)

pub put_field-new :
    (k : Bytes) (v : DataNode) (fs : Fields)
    → has_field k fs ≡ false
    → put_field k v fs ≡ append_fields fs (field k v no_fields)
unfolding put_field has_field append_fields
put_field-new k v no_fields h = refl
put_field-new k v (field j w fs) h = ground (arith, put_field-new k v fs)

pub put_entry-new :
    (k : ℕ) (v : DataNode) (es : Entries)
    → has_entry k es ≡ false
    → put_entry k v es ≡ append_entries es (entry k v no_entries)
unfolding put_entry has_entry append_entries
put_entry-new k v no_entries h = refl
put_entry-new k v (entry j w es) h = ground (arith, put_entry-new k v es)

-- No key of the second map is in the first.
abbrev pub FieldsApart : Fields → Fields → Type 0
FieldsApart fs no_fields = Unit
FieldsApart fs (field k v gs) = (has_field k fs ≡ false) × FieldsApart fs gs

abbrev pub EntriesApart : Entries → Entries → Type 0
EntriesApart es no_entries = Unit
EntriesApart es (entry k v ds) = (has_entry k es ≡ false) × EntriesApart es ds

pub FieldsApart-nil : (gs : Fields) → FieldsApart no_fields gs
unfolding has_field
FieldsApart-nil no_fields = tt
FieldsApart-nil (field k v gs) = (refl, FieldsApart-nil gs)

pub EntriesApart-nil : (ds : Entries) → EntriesApart no_entries ds
unfolding has_entry
EntriesApart-nil no_entries = tt
EntriesApart-nil (entry k v ds) = (refl, EntriesApart-nil ds)

has_field-snoc :
    (j k : Bytes) (v : DataNode) (fs : Fields)
    → has_field j (append_fields fs (field k v no_fields)) ≡ (has_field j fs || bytes_eq k j)
unfolding has_field append_fields
has_field-snoc j k v no_fields = ground arith
has_field-snoc j k v (field i w fs) = ground (arith, has_field-snoc j k v fs)

has_entry-snoc :
    (j k : ℕ) (v : DataNode) (es : Entries)
    → has_entry j (append_entries es (entry k v no_entries)) ≡ (has_entry j es || (k == j))
unfolding has_entry append_entries
has_entry-snoc j k v no_entries = ground arith
has_entry-snoc j k v (entry i w es) = ground (arith, has_entry-snoc j k v es)

-- The next key moves from the second map to the first.
pub FieldsApart-snoc :
    (k : Bytes) (v : DataNode) (fs gs : Fields)
    → FieldsApart fs gs
    → has_field k gs ≡ false
    → FieldsApart (append_fields fs (field k v no_fields)) gs
unfolding has_field
FieldsApart-snoc k v fs no_fields h new = tt
FieldsApart-snoc k v fs (field j w gs) h new = (
  ground (arith, has_field-snoc j k v fs, bytes_eq_comm j k),
  FieldsApart-snoc k v fs gs h.1 (ground arith),
)

pub EntriesApart-snoc :
    (k : ℕ) (v : DataNode) (es ds : Entries)
    → EntriesApart es ds
    → has_entry k ds ≡ false
    → EntriesApart (append_entries es (entry k v no_entries)) ds
unfolding has_entry
EntriesApart-snoc k v es no_entries h new = tt
EntriesApart-snoc k v es (entry j w ds) h new =
    (ground (arith, has_entry-snoc j k v es), EntriesApart-snoc k v es ds h.1 (ground arith))
