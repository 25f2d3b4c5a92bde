-- ===== src/Hjson/Starts.antt =====
-- The texts that the JSON serializer writes, and how each begins.
use async.Base.{
  Option, none, some, ℕ, zero, suc, ◌≤◌, ◌<◌, ◌^◌, ◌≡◌, refl, sym, subst, Bool, true, false, not,
  ◌&&◌, ◌||◌, [], ◌∷◌, ◌++◌, ltb, ◌==◌, Bytes, length, arith,
}
use async.Data.{
  DataNode, Items, Fields, null, bool, int, float, string, array, object, int_map, binary, no_items,
  item, no_fields, field, has_field,
}
use async.Json.{
  serialize_int, serialize_string, serialize_leaf, serialize_value, k_max_serialize_depth,
}
use async.Hjson.Scan.{count_until, skip_ws_scalar, is_ws}
use async.Hjson.Returns.{Returns, skip_ws_upto-Returns}
use async.Hjson.Reader.{Reader, returned, at, pass, skip_ws, skip_ws_upto, skip_separator}
use async.Hjson.Integers.{is_plain, IsPlain, serialize_int-IsNumber}

-- At most so many containers inside each other, no float, int map or binary, the integers words of
-- 64 bits, and the keys of an object distinct.
unfoldable mutual
  pub IsReadable : (levels : ℕ) → DataNode → Type 0
  IsReadable d null = Unit
  IsReadable d (bool b) = Unit
  IsReadable d (int v) = v < 2 ^ 64
  IsReadable d (float v) = ⊥
  IsReadable d (string s) = Unit
  IsReadable zero (array xs) = ⊥
  IsReadable (suc d) (array xs) = AllReadable d xs
  IsReadable zero (object fs) = ⊥
  IsReadable (suc d) (object fs) = FieldsReadable d fs
  IsReadable d (int_map es) = ⊥
  IsReadable d (binary b) = ⊥

  pub AllReadable : (levels : ℕ) → Items → Type 0
  AllReadable d no_items = Unit
  AllReadable d (item v xs) = IsReadable d v × AllReadable d xs

  pub FieldsReadable : (levels : ℕ) → Fields → Type 0
  FieldsReadable d no_fields = Unit
  FieldsReadable d (field k v fs) = (has_field k fs ≡ false) × IsReadable d v × FieldsReadable d fs

-- A character at which the reader stops, outside any white space and comment.
abbrev pub is_solid : ℕ → Bool
is_solid c = ltb 32 c && not (c == 35) && not (c == 47)

-- A solid character that ends no container and separates nothing.
abbrev pub is_first : ℕ → Bool
is_first c = is_solid c && not ((c == b',') || ((c == b'}') || (c == b']')))

pub record Starts (s : Bytes) : Type 0 where
  pub head : ℕ
  pub tail : Bytes
  pub whole : s ≡ head ∷ tail
  pub first : is_first head ≡ true

skip_ws_upto-solid :
    (fuel : ℕ) (b : Bytes) (c : ℕ) (s : Bytes)
    → is_solid c ≡ true
    → skip_ws_upto (suc (suc fuel)) (at b (c ∷ s)) ≡ some (at b (c ∷ s))
unfolding skip_ws_upto skip_ws_scalar pass count_until
skip_ws_upto-solid fuel b c s h =
    let no_ws : is_ws c ≡ false = ground arith in
    let no_hash : (c == 35) ≡ false = ground arith in
    let no_slash : (c == 47) ≡ false = ground arith in rw (no_ws, no_hash, no_slash) refl

returned_same : (o : Option Reader) (h : Returns o) (r : Reader) → o ≡ some r → returned o h ≡ r
returned_same none h r e = absurd h
returned_same (some q) h r e = cc e

pub skip_ws-solid :
    (b : Bytes) (c : ℕ) (s : Bytes) → is_solid c ≡ true → skip_ws (at b (c ∷ s)) ≡ at b (c ∷ s)
unfolding skip_ws
skip_ws-solid b c s h =
    returned_same _ (skip_ws_upto-Returns (at b (c ∷ s))) (at b (c ∷ s))
      (skip_ws_upto-solid (length s) b c s h)

plain-first : (c : ℕ) → is_plain c ≡ true → is_first c ≡ true
plain-first c h = ground arith

IsPlain-Starts : (s : Bytes) → 0 < length s → IsPlain s → Starts s
IsPlain-Starts [] pos h = absurd (omega arith)
IsPlain-Starts (c ∷ s) pos h = record {
  head = c;
  tail = s;
  whole = refl;
  first = plain-first c h.0;
}

begins : (c : ℕ) (s : Bytes) → is_first c ≡ true → Starts (c ∷ s)
begins c s h = record { head = c; tail = s; whole = refl; first = h }

pub not_too_deep : (depth : ℕ) → depth ≤ 128 → ltb k_max_serialize_depth depth ≡ false
not_too_deep depth h = ground arith

module _ (print_g : ℕ → ℕ → Bytes) (scan : Bytes → ℕ) where
  pub serialize_value-Starts :
      (d depth : ℕ) (v : DataNode)
      → IsReadable d v
      → depth ≤ 128
      → Starts (serialize_value print_g scan depth v)
  unfolding IsReadable serialize_value serialize_leaf serialize_string
  serialize_value-Starts d depth null h k = rw (not_too_deep depth k) (begins _ _ refl)
  serialize_value-Starts d depth (bool true) h k = rw (not_too_deep depth k) (begins _ _ refl)
  serialize_value-Starts d depth (bool false) h k = rw (not_too_deep depth k) (begins _ _ refl)
  serialize_value-Starts d depth (int v) h k =
      let number = serialize_int-IsNumber v h in
      rw (not_too_deep depth k) (IsPlain-Starts (serialize_int v) number.long number.plain)
  serialize_value-Starts d depth (string s) h k = rw (not_too_deep depth k) (begins _ _ refl)
  serialize_value-Starts (suc d) depth (array xs) h k = rw (not_too_deep depth k) (begins _ _ refl)
  serialize_value-Starts (suc d) depth (object fs) h k = rw (not_too_deep depth k) (begins _ _ refl)
  serialize_value-Starts zero depth (array xs) h k = absurd h
  serialize_value-Starts zero depth (object fs) h k = absurd h
  serialize_value-Starts d depth (float v) h k = absurd h
  serialize_value-Starts d depth (int_map es) h k = absurd h
  serialize_value-Starts d depth (binary s) h k = absurd h

solid_first : (c : ℕ) → is_first c ≡ true → is_solid c ≡ true
solid_first c h = ground arith

pub skip_ws-Starts : (b s t : Bytes) → Starts s → skip_ws (at b (s ++ t)) ≡ at b (s ++ t)
skip_ws-Starts b s t h =
    subst (λ u. skip_ws (at b (u ++ t)) ≡ at b (u ++ t)) (sym h.whole)
      (skip_ws-solid b h.head (h.tail ++ t) (solid_first h.head h.first))

-- A text that stands where no comma, closing sign, white space or comment may be its start.
pub skip_separator-comma :
    (b : Bytes) (s t : Bytes)
    → Starts s
    → skip_separator (at b (b',' ∷ (s ++ t))) ≡ at (b',' ∷ b) (s ++ t)
unfolding skip_separator
skip_separator-comma b s t h = skip_ws-Starts (b',' ∷ b) s t h

pub skip_separator-end :
    (b : Bytes) (c : ℕ) (t : Bytes)
    → is_solid c ≡ true
    → (c == b',') ≡ false
    → skip_separator (at b (c ∷ t)) ≡ at b (c ∷ t)
unfolding skip_separator
skip_separator-end b c t h e = rw (skip_ws-solid b c t h, e) refl
