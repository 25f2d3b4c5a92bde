-- ===== src/MsgPack/Sound/Containers.antt =====
-- The loops and the containers of the reader: what they return is encodable, within the input.
use async.Base.{
  ℕ, zero, suc, ◌+◌, ◌^◌, ◌≤◌, ◌<◌, ◌≡◌, refl, ap, Bytes, arith, length, ltb, ◌==◌, not, ◌&&◌,
}
use async.Data.{
  DataNode, Items, Fields, Entries, int, float, string, array, object, int_map, no_fields,
  no_entries, entry, size_items, size_fields, size_entries, put_field, put_entry,
}
use async.MsgPack.Reader.{ok, Reader}
use async.MsgPack.Read.{
  int_key, string_key, has_int_keys, has_str_keys, read_entries, read_fields, read_items,
  read_keyed, read_map, read_array, read_str, read_bin,
}
use async.MsgPack.Encodable.{canon, canon_items, levels, levels_items, IsEncodable, ItemsEncodable}
use async.MsgPack.Insert.{
  IsParsed, FieldsParsed, EntriesParsed, FieldsParsed-put_field, EntriesParsed-put_entry,
  size_fields-put_field, size_entries-put_entry, size_entries-put_entry_pos,
}
use async.MsgPack.Ensures.{
  Ensures, holds, refused, IsBytes, Left, Ensures-if, Ensures-bind, Ensures-weaken, guarded,
  guarded_peek, read_bytes-Ensures,
}

-- `rec` reads a value of at most `d` levels, and stays inside its input.
abbrev pub ReadsValue : (m d : ℕ) → Reader DataNode → Bytes → Type 0
ReadsValue m d rec r = Ensures (λ v r'. IsParsed m d v × Left r r') (rec r)

string_key-Ensures :
    (m d : ℕ) (v : DataNode) (r : Bytes)
    → IsParsed m d v
    → Ensures (λ k r'. (length k < 2 ^ 32) × (r' ≡ r)) (string_key v r)
unfolding string_key IsEncodable
string_key-Ensures m d (string s) r p = holds (p.encodable, refl)
string_key-Ensures m d _ r p = refused

int_key-Ensures :
    (m d : ℕ) (v : DataNode) (r : Bytes)
    → IsParsed m d v
    → Ensures (λ k r'. (k < 2 ^ 64) × (r' ≡ r)) (int_key v r)
unfolding int_key IsEncodable
int_key-Ensures m d (int n) r p = holds (p.encodable, refl)
int_key-Ensures m d _ r p = refused

-- What a loop over items leaves.
record ItemsParsed (m d : ℕ) (xs : Items) : Type 0 where
  encodable : ItemsEncodable m xs
  nesting : levels_items xs ≤ d
  canonical : canon_items xs ≡ xs

module _ (m d : ℕ) (rec : Reader DataNode)
    (sound : (r : Bytes) → IsBytes r → ReadsValue m d rec r) where
  read_fields-Ensures :
      (n : ℕ) (fs : Fields) (r : Bytes)
      → IsBytes r
      → FieldsParsed m d fs
      → Ensures
          (λ gs r'. FieldsParsed m d gs × (size_fields gs ≤ size_fields fs + n) × Left r r')
          (read_fields rec n fs r)
  unfolding read_fields
  read_fields-Ensures zero fs r w p = holds (p, omega arith, (w, omega arith))
  read_fields-Ensures (suc n) fs r w p = Ensures-bind (sound r w) λ key r₁ (kp, w₁).
      Ensures-bind (string_key-Ensures m d key r₁ kp) λ k r₂ (len, e).
        Ensures-bind (sound r₂ (rw e w₁.0)) λ v r₃ (vp, w₃).
          Ensures-weaken
            (read_fields-Ensures n (put_field k v fs) r₃ w₃.0
              (FieldsParsed-put_field m d vp k fs len p))
            λ gs r' (q, s, w').
              (q, omega (arith, size_fields-put_field k v fs), (w'.0, omega (arith, ap length e)))

  read_entries-Ensures :
      (n : ℕ) (es : Entries) (r : Bytes)
      → IsBytes r
      → EntriesParsed m d es
      → Ensures
          (λ ds r'.
            EntriesParsed m d ds
            × (size_entries ds ≤ size_entries es + n)
            × (0 < size_entries es + n → 0 < size_entries ds)
            × Left r r')
          (read_entries rec n es r)
  unfolding read_entries
  read_entries-Ensures zero es r w p = holds (p, omega arith, (λ h. omega arith), (w, omega arith))
  read_entries-Ensures (suc n) es r w p = Ensures-bind (sound r w) λ key r₁ (kp, w₁).
      Ensures-bind (int_key-Ensures m d key r₁ kp) λ k r₂ (word, e).
        Ensures-bind (sound r₂ (rw e w₁.0)) λ v r₃ (vp, w₃).
          Ensures-weaken
            (read_entries-Ensures n (put_entry k v es) r₃ w₃.0
              (EntriesParsed-put_entry m d vp k es word p))
            λ ds r' (q, s, full, w'). (
              q,
              omega (arith, size_entries-put_entry k v es),
              (λ h. full (omega (arith, size_entries-put_entry_pos k v es))),
              (w'.0, omega (arith, ap length e)),
            )

  read_items-Ensures :
      (n : ℕ) (r : Bytes)
      → IsBytes r
      → Ensures (λ xs r'. ItemsParsed m d xs × (size_items xs ≡ n) × Left r r') (read_items rec n r)
  unfolding read_items size_items levels canon IsEncodable
  read_items-Ensures zero r w =
      holds
        (record { encodable = tt; nesting = omega arith; canonical = refl }, refl, (w, omega arith))
  read_items-Ensures (suc n) r w = Ensures-bind (sound r w) λ v r₁ (vp, w₁).
      Ensures-bind (read_items-Ensures n r₁ w₁.0) λ xs r₂ (p, s, w₂). holds (
        record {
          encodable = (vp.encodable, p.encodable);
          nesting = omega arith;
          canonical = cc (vp.canonical, p.canonical);
        },
        ap suc s,
        (w₂.0, omega arith),
      )

  -- A container or a scalar, one level up.
  abbrev pub Above : Bytes → DataNode → Bytes → Type 0
  Above r v r' = IsParsed m (suc d) v × Left r r'

  pub read_array-Ensures :
      (n : ℕ) (r : Bytes) → IsBytes r → n < 2 ^ 32 → Ensures (Above r) (read_array rec m n r)
  unfolding read_array levels canon IsEncodable
  read_array-Ensures n r w small =
      Ensures-if (ltb m n) _ _ r (λ _. refused)
        λ fits. Ensures-bind (read_items-Ensures n r w) λ xs r' (p, s, w'). holds (
          record {
            encodable = (omega arith, ground arith, p.encodable);
            nesting = omega arith;
            canonical = ap array p.canonical;
          },
          w',
        )

  full_map :
      (es : Entries) → 0 < size_entries es → EntriesParsed m d es → canon (int_map es) ≡ int_map es
  unfolding size_entries canon
  full_map no_entries h p = absurd (omega arith)
  full_map (entry k v es) h p = ap int_map p.canonical

  empty_fields : FieldsParsed m d no_fields
  unfolding IsEncodable levels canon
  empty_fields = record { encodable = tt; nesting = omega arith; canonical = refl }

  empty_entries : EntriesParsed m d no_entries
  unfolding IsEncodable levels canon
  empty_entries = record { encodable = tt; nesting = omega arith; canonical = refl }

  read_keyed-Ensures :
      (n peek : ℕ) (r : Bytes)
      → IsBytes r
      → 0 < n
      → n < 2 ^ 32
      → n ≤ m
      → Ensures (Above r) (read_keyed rec m n peek r)
  unfolding read_keyed levels IsEncodable size_fields size_entries
  read_keyed-Ensures n peek r w pos small fits =
      Ensures-if (not (has_int_keys peek) && not (has_str_keys peek)) _ _ r (λ _. refused)
        λ _.
          Ensures-if (has_int_keys peek) _ _ r
            (λ _.
              Ensures-bind (read_entries-Ensures n no_entries r w empty_entries)
                λ es r' (p, s, full, w'). holds (
                  record {
                    encodable = (omega arith, omega arith, p.encodable);
                    nesting = omega arith;
                    canonical = full_map es (full (omega arith)) p;
                  },
                  w',
                ))
            λ _. Ensures-bind (read_fields-Ensures n no_fields r w empty_fields) λ fs r' (p, s, w').
              holds (
                record {
                  encodable = (omega arith, omega arith, p.encodable);
                  nesting = omega arith;
                  canonical = unfold canon in ap object p.canonical;
                },
                w',
              )

  pub read_map-Ensures :
      (n : ℕ) (r : Bytes) → IsBytes r → n < 2 ^ 32 → Ensures (Above r) (read_map rec m n r)
  unfolding read_map levels canon IsEncodable size_fields
  read_map-Ensures n r w small =
      Ensures-if (n == 0) _ _ r
        (λ _. holds (
          record {
            encodable = (omega arith, omega arith, tt);
            nesting = omega arith;
            canonical = refl;
          },
          (w, omega arith),
        ))
        λ pos.
          Ensures-if (ltb m n) _ _ r (λ _. refused)
            λ fits.
              guarded_peek (read_keyed rec m n) r w
                λ peek _. read_keyed-Ensures n peek r w (ground arith) small (ground arith)

  pub read_str-Ensures :
      (n : ℕ) (r : Bytes) → IsBytes r → n < 2 ^ 32 → Ensures (Above r) (read_str rec m n r)
  unfolding read_str levels canon IsEncodable
  read_str-Ensures n r w small = guarded n _ r λ h.
      Ensures-bind (read_bytes-Ensures n r w h) λ s r' (e, w').
        holds (record { encodable = omega arith; nesting = omega arith; canonical = refl }, w')

  pub read_bin-Ensures :
      (n : ℕ) (r : Bytes) → IsBytes r → n < 2 ^ 32 → Ensures (Above r) (read_bin rec m n r)
  unfolding read_bin levels canon IsEncodable
  read_bin-Ensures n r w small = guarded n _ r λ h.
      Ensures-bind (read_bytes-Ensures n r w h) λ s r' (e, w').
        holds (record { encodable = omega arith; nesting = omega arith; canonical = refl }, w')

  pub int_Ensures :
      (n : ℕ) (r r' : Bytes) → n < 2 ^ 64 → Left r r' → Ensures (Above r) (ok (int n) r')
  unfolding levels canon IsEncodable
  int_Ensures n r r' word w' =
      holds (record { encodable = word; nesting = omega arith; canonical = refl }, w')

  pub float_Ensures :
      (n : ℕ) (r r' : Bytes) → n < 2 ^ 64 → Left r r' → Ensures (Above r) (ok (float n) r')
  unfolding levels canon IsEncodable
  float_Ensures n r r' word w' =
      holds (record { encodable = word; nesting = omega arith; canonical = refl }, w')
