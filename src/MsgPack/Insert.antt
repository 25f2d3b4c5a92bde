-- ===== src/MsgPack/Insert.antt =====
-- Inserting into a map that was read keeps it encodable.
use async.Base.{
  ℕ, suc, ◌^◌, ◌≤◌, ◌<◌, ◌≡◌, refl, ap, ◌||◌, Bool-cases, inl, inr, Bytes, bytes_eq, bytes_eq→eq,
  bytes_eq_comm, ◌==◌, length, arith,
}
use async.Data.{
  DataNode, Fields, Entries, no_fields, field, no_entries, entry, size_fields, size_entries,
  has_field, has_entry, put_field, put_entry,
}
use async.MsgPack.Encodable.{
  canon, canon_fields, canon_entries, levels, levels_fields, levels_entries, IsEncodable,
  FieldsEncodable, EntriesEncodable,
}

-- What holds of a value that the parser returned at `d` levels.
pub record IsParsed (m d : ℕ) (v : DataNode) : Type 0 where
  pub encodable : IsEncodable m v
  pub nesting : levels v ≤ d
  pub canonical : canon v ≡ v

pub record FieldsParsed (m d : ℕ) (fs : Fields) : Type 0 where
  pub encodable : FieldsEncodable m fs
  pub nesting : levels_fields fs ≤ d
  pub canonical : canon_fields fs ≡ fs

pub record EntriesParsed (m d : ℕ) (es : Entries) : Type 0 where
  pub encodable : EntriesEncodable m es
  pub nesting : levels_entries es ≤ d
  pub canonical : canon_entries es ≡ es

pub has_field-put_field :
    (j k : Bytes) (v : DataNode) (fs : Fields)
    → has_field j (put_field k v fs) ≡ (has_field j fs || bytes_eq k j)
unfolding has_field put_field
has_field-put_field j k v no_fields = ground arith
has_field-put_field j k v (field i w fs) = elim (Bool-cases (bytes_eq i k)) [
  | inl e ↦ rw e (ground (arith, ap (λ t. bytes_eq t j) (bytes_eq→eq i k e)))
  | inr e ↦ rw e (ground (arith, has_field-put_field j k v fs))
]

has_entry-put_entry :
    (j k : ℕ) (v : DataNode) (es : Entries)
    → has_entry j (put_entry k v es) ≡ (has_entry j es || (k == j))
unfolding has_entry put_entry
has_entry-put_entry j k v no_entries = ground arith
has_entry-put_entry j k v (entry i w es) = ground (arith, has_entry-put_entry j k v es)

pub size_fields-put_field :
    (k : Bytes) (v : DataNode) (fs : Fields) → size_fields (put_field k v fs) ≤ suc (size_fields fs)
unfolding size_fields put_field
size_fields-put_field k v no_fields = omega arith
size_fields-put_field k v (field j w fs) = ground (arith, size_fields-put_field k v fs)

pub size_entries-put_entry :
    (k : ℕ) (v : DataNode) (es : Entries) → size_entries (put_entry k v es) ≤ suc (size_entries es)
unfolding size_entries put_entry
size_entries-put_entry k v no_entries = omega arith
size_entries-put_entry k v (entry j w es) = ground (arith, size_entries-put_entry k v es)

-- A map with a new entry is not empty.
pub size_entries-put_entry_pos :
    (k : ℕ) (v : DataNode) (es : Entries) → 0 < size_entries (put_entry k v es)
unfolding size_entries put_entry
size_entries-put_entry_pos k v no_entries = omega arith
size_entries-put_entry_pos k v (entry j w es) = ground arith

module _ (m d : ℕ) {v : DataNode} (p : IsParsed m d v) where
  pub FieldsParsed-put_field :
      (k : Bytes) (fs : Fields)
      → length k < 2 ^ 32
      → FieldsParsed m d fs
      → FieldsParsed m d (put_field k v fs)
  unfolding IsEncodable levels canon has_field put_field
  FieldsParsed-put_field k no_fields len q = record {
    encodable = (len, refl, p.encodable, tt);
    nesting = ground arith;
    canonical = ap (λ w. field k w no_fields) p.canonical;
  }
  FieldsParsed-put_field k (field j w fs) len q = elim (Bool-cases (bytes_eq j k)) [
    | inl e ↦ rw e (record {
      encodable = (q.encodable.0, q.encodable.1, p.encodable, q.encodable.3);
      nesting = ground arith;
      canonical = cc (p.canonical, q.canonical);
    })
    | inr e ↦
        let tail : FieldsParsed m d fs = record {
          encodable = q.encodable.3;
          nesting = ground arith;
          canonical = cc q.canonical;
        } in
        let r = FieldsParsed-put_field k fs len tail in
        rw e (record {
          encodable = (
            q.encodable.0,
            ground (arith, has_field-put_field j k v fs, bytes_eq_comm j k),
            q.encodable.2,
            r.encodable,
          );
          nesting = ground arith;
          canonical = cc (q.canonical, r.canonical);
        })
  ]

  pub EntriesParsed-put_entry :
      (k : ℕ) (es : Entries)
      → k < 2 ^ 64
      → EntriesParsed m d es
      → EntriesParsed m d (put_entry k v es)
  unfolding IsEncodable levels canon has_entry put_entry
  EntriesParsed-put_entry k no_entries word q = record {
    encodable = (word, refl, p.encodable, tt);
    nesting = ground arith;
    canonical = ap (λ w. entry k w no_entries) p.canonical;
  }
  EntriesParsed-put_entry k (entry j w es) word q = elim (Bool-cases (j == k)) [
    | inl e ↦ rw e (record {
      encodable = (q.encodable.0, q.encodable.1, p.encodable, q.encodable.3);
      nesting = ground arith;
      canonical = cc (p.canonical, q.canonical);
    })
    | inr e ↦
        let tail : EntriesParsed m d es = record {
          encodable = q.encodable.3;
          nesting = ground arith;
          canonical = cc q.canonical;
        } in
        let r = EntriesParsed-put_entry k es word tail in
        rw e (record {
          encodable = (
            q.encodable.0,
            ground (arith, has_entry-put_entry j k v es),
            q.encodable.2,
            r.encodable,
          );
          nesting = ground arith;
          canonical = cc (q.canonical, r.canonical);
        })
  ]
