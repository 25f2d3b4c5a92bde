-- ===== src/Hjson/Document.antt =====
-- The values that a text can stand for.
use async.Base.{
  ℕ, zero, suc, ◌*◌, ◌%◌, ◌^◌, ◌<◌, ◌≡◌, refl, false, Bool-cases, inl, inr, arith, Bytes, bytes_eq,
  bytes_eq_comm,
}
use async.Data.{
  DataNode, Items, Fields, null, bool, int, float, string, array, object, int_map, binary, no_items,
  item, no_fields, field, has_field, put_field,
}
use async.MsgPack.Insert.{has_field-put_field}
use async.Hjson.Values.{push_back}

-- With one level less, if there is one.
abbrev Below : (ℕ → Type 0) → ℕ → Type 0
Below P zero = ⊥
Below P (suc d) = P d

-- At most so many containers inside each other, no int map and no binary in it, the integers words of
-- 64 bits, the floats finite, and the keys of an object distinct.
unfoldable mutual
  pub IsDocument : (levels : ℕ) → DataNode → Type 0
  IsDocument d null = Unit
  IsDocument d (bool b) = Unit
  IsDocument d (int v) = v < 2 ^ 64
  IsDocument d (float v) = v % 2 ^ 63 < 2047 * 2 ^ 52
  IsDocument d (string s) = Unit
  IsDocument d (array xs) = Below (λ e. ItemsDocument e xs) d
  IsDocument d (object fs) = Below (λ e. FieldsDocument e fs) d
  IsDocument d (int_map es) = ⊥
  IsDocument d (binary b) = ⊥

  pub ItemsDocument : (levels : ℕ) → Items → Type 0
  ItemsDocument d no_items = Unit
  ItemsDocument d (item v xs) = IsDocument d v × ItemsDocument d xs

  pub FieldsDocument : (levels : ℕ) → Fields → Type 0
  FieldsDocument d no_fields = Unit
  FieldsDocument d (field k v fs) = (has_field k fs ≡ false) × IsDocument d v × FieldsDocument d fs

pub ItemsDocument-push_back :
    (d : ℕ) (xs : Items) (v : DataNode)
    → ItemsDocument d xs
    → IsDocument d v
    → ItemsDocument d (push_back xs v)
unfolding IsDocument push_back
ItemsDocument-push_back d no_items v h k = (k, tt)
ItemsDocument-push_back d (item w xs) v h k = (h.0, ItemsDocument-push_back d xs v h.1 k)

pub FieldsDocument-put_field :
    (d : ℕ) (k : Bytes) (v : DataNode) (fs : Fields)
    → FieldsDocument d fs
    → IsDocument d v
    → FieldsDocument d (put_field k v fs)
unfolding IsDocument has_field put_field
FieldsDocument-put_field d k v no_fields h doc = (refl, doc, tt)
FieldsDocument-put_field d k v (field j w fs) h doc = elim (Bool-cases (bytes_eq j k)) [
  | inl e ↦ rw e (h.0, doc, h.2)
  | inr e ↦ rw e (
    ground (arith, has_field-put_field j k v fs, bytes_eq_comm j k, h.0),
    h.1,
    FieldsDocument-put_field d k v fs h.2 doc,
  )
]
