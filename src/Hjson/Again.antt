-- ===== src/Hjson/Again.antt =====
-- The HJSON parser on the JSON that the serializer writes.
use async.Base.{
  ℕ, zero, suc, ◌+◌, ◌≤◌, ◌<◌, ◌≡◌, refl, sym, ap, ◌∙◌, true, false, ◌||◌, [], ◌∷◌, ◌++◌,
  append_assoc, append-nil, ◌==◌, Bytes, length, arith,
}
use async.Data.{
  DataNode, null, bool, int, float, string, Items, Fields, array, object, int_map, binary,
}
use async.Json.{
  serialize_int, null_text, bool_text, serialize_string, serialize_leaf, serialize_value,
  value_items, value_fields, data_serialize_json,
}
use async.Hjson.Reader.{Reader, at, pass, skip_ws, skip_ws_upto}
use async.Hjson.Scan.{count_until, skip_ws_scalar}
use async.Hjson.Strings.{Outcome, ok, and_then}
use async.Hjson.Values.{value_at, read_value, read_unquoted_value}
use async.Hjson.Parse.{parsed, nullptr, whole, parse_root, hjson_parse}
use async.Hjson.Integers.{is_plain, IsPlain, plain-is_quote, serialize_int-IsNumber}
use async.Hjson.Words.{read_int, read_bool, read_null}
use async.Hjson.ReadBack.{Gives, read_quoted_string-serialize_string}
use async.Hjson.ReadItems.{ReadsAs, read_array-value_items}
use async.Hjson.ReadFields.{read_object-value_fields}
use async.Hjson.Starts.{
  Starts, IsReadable, not_too_deep, is_solid, skip_ws-solid, skip_ws-Starts, serialize_value-Starts,
}

abbrev pub IsContainer : DataNode → Type 0
IsContainer (array xs) = Unit
IsContainer (object fs) = Unit
IsContainer _ = ⊥

plain-no_brace : (c : ℕ) → is_plain c ≡ true → (c == b'{') ≡ false
plain-no_brace c h = ground arith

plain-no_bracket : (c : ℕ) → is_plain c ≡ true → (c == b'[') ≡ false
plain-no_bracket c h = ground arith

module _ (print_g : ℕ → ℕ → Bytes) (scan : Bytes → ℕ) (strtod : Bytes → ℕ × ℕ) where
  word_at :
      (value : Reader → Outcome DataNode) (b w r : Bytes)
      → IsPlain w
      → 0 < length w
      → value_at strtod value (at b (w ++ r)) ≡ read_unquoted_value strtod (at b (w ++ r))
  word_at value b [] r h pos = absurd (omega arith)
  word_at value b (c ∷ w) r h pos =
      let no_brace : (c == b'{') ≡ false = plain-no_brace c h.0 in
      let no_bracket : (c == b'[') ≡ false = plain-no_bracket c h.0 in
      rw (no_brace, no_bracket, plain-is_quote c h.0) refl

  through_word :
      (value : Reader → Outcome DataNode) (b w r : Bytes) (v : DataNode)
      → IsPlain w
      → 0 < length w
      → Gives (read_unquoted_value strtod (at b (w ++ r))) v r
      → Gives (value_at strtod value (at b (w ++ r))) v r
  through_word value b w r v h pos (b1, run) = (b1, word_at value b w r h pos ∙ run)

  string_at :
      (value : Reader → Outcome DataNode) (b s r : Bytes)
      → Gives (value_at strtod value (at b (serialize_string s ++ r))) (string s) r
  unfolding serialize_string
  string_at value b s r =
      let (b1, run) = read_quoted_string-serialize_string s r b true in
      (b1, ap (λ o. and_then o (λ text q. ok (string text) q)) run)

  behind_ws :
      (n : ℕ) (s : Bytes) (v : DataNode)
      → Starts s
      → ReadsAs (value_at strtod (read_value strtod n)) s v
      → ReadsAs (read_value strtod (suc n)) s v
  unfolding read_value
  behind_ws n s v starts h b r e =
      let (b1, run) = h b r e in
      (b1, ap (value_at strtod (read_value strtod n)) (skip_ws-Starts b s r starts) ∙ run)

  array_text :
      (depth : ℕ) (xs : Items) (r : Bytes)
      → depth ≤ 128
      → serialize_value print_g scan depth (array xs) ++ r
        ≡ b'[' ∷ (value_items print_g scan true depth xs ++ (b']' ∷ r))
  unfolding serialize_value
  array_text depth xs r h =
      rw (not_too_deep depth h)
        (ap (λ u. b'[' ∷ u) (append_assoc (value_items print_g scan true depth xs) (b']' ∷ []) r))

  object_text :
      (depth : ℕ) (fs : Fields) (r : Bytes)
      → depth ≤ 128
      → serialize_value print_g scan depth (object fs) ++ r
        ≡ b'{' ∷ (value_fields print_g scan true depth fs ++ (b'}' ∷ r))
  unfolding serialize_value
  object_text depth fs r h =
      rw (not_too_deep depth h)
        (ap (λ u. b'{' ∷ u) (append_assoc (value_fields print_g scan true depth fs) (b'}' ∷ []) r))

  -- What `read_value` does behind white space at the text of a value.
  value_at-serialize_value :
      (d depth n : ℕ) (v : DataNode)
      → IsReadable d v
      → depth + d ≤ 128
      → d ≤ n
      → ReadsAs (value_at strtod (read_value strtod n)) (serialize_value print_g scan depth v) v
  unfolding IsReadable serialize_value serialize_leaf
  value_at-serialize_value d depth n null h k l b r e = rw (not_too_deep depth (omega arith)) (
      through_word (read_value strtod n) b null_text r null (refl, (refl, (refl, (refl, tt))))
        (omega arith) (read_null strtod b r e))
  value_at-serialize_value d depth n (bool true) h k l b r e =
      rw (not_too_deep depth (omega arith)) (
        through_word (read_value strtod n) b (bool_text true) r (bool true)
          (refl, (refl, (refl, (refl, tt)))) (omega arith) (read_bool strtod true b r e))
  value_at-serialize_value d depth n (bool false) h k l b r e =
      rw (not_too_deep depth (omega arith)) (
        through_word (read_value strtod n) b (bool_text false) r (bool false)
          (refl, (refl, (refl, (refl, (refl, tt))))) (omega arith) (read_bool strtod false b r e))
  value_at-serialize_value d depth n (int v) h k l b r e =
      let number = serialize_int-IsNumber v h in
      rw (not_too_deep depth (omega arith)) (
        through_word (read_value strtod n) b (serialize_int v) r (int v) number.plain number.long
          (read_int strtod v b r h e))
  value_at-serialize_value d depth n (string s) h k l b r e =
      rw (not_too_deep depth (omega arith)) (string_at (read_value strtod n) b s r)
  value_at-serialize_value (suc d) depth (suc n) (array xs) h k l b r e =
      let inside : (v : DataNode)
          → IsReadable d v
          → ReadsAs (read_value strtod (suc n)) (serialize_value print_g scan (depth + 1) v) v =
        λ v doc.
          behind_ws n (serialize_value print_g scan (depth + 1) v) v
            (serialize_value-Starts print_g scan d (depth + 1) v doc (omega arith))
            (value_at-serialize_value d (depth + 1) n v doc (omega arith) (omega arith)) in
      let (b1, run) =
        read_array-value_items print_g scan strtod (read_value strtod (suc n)) d depth (omega arith)
          inside xs (b'[' ∷ b) r h in
      (
        b1,
        ap (λ u. value_at strtod (read_value strtod (suc n)) (at b u))
              (array_text depth xs r (omega arith))
            ∙ run,
      )
  value_at-serialize_value (suc d) depth (suc n) (object fs) h k l b r e =
      let inside : (v : DataNode)
          → IsReadable d v
          → ReadsAs (read_value strtod (suc n)) (serialize_value print_g scan (depth + 1) v) v =
        λ v doc.
          behind_ws n (serialize_value print_g scan (depth + 1) v) v
            (serialize_value-Starts print_g scan d (depth + 1) v doc (omega arith))
            (value_at-serialize_value d (depth + 1) n v doc (omega arith) (omega arith)) in
      let (b1, run) =
        read_object-value_fields print_g scan strtod (read_value strtod (suc n)) d depth
          (omega arith) inside fs (b'{' ∷ b) r h in
      (
        b1,
        ap (λ u. value_at strtod (read_value strtod (suc n)) (at b u))
              (object_text depth fs r (omega arith))
            ∙ run,
      )
  value_at-serialize_value (suc d) depth zero v h k l b r e = absurd (omega arith)
  value_at-serialize_value zero depth n (array xs) h k l b r e = absurd h
  value_at-serialize_value zero depth n (object fs) h k l b r e = absurd h
  value_at-serialize_value d depth n (float v) h k l b r e = absurd h
  value_at-serialize_value d depth n (int_map es) h k l b r e = absurd h
  value_at-serialize_value d depth n (binary s) h k l b r e = absurd h

  nothing_left : (b : Bytes) (v : DataNode) → whole nullptr (ok v (at b [])) ≡ parsed v
  unfolding skip_ws skip_ws_upto skip_ws_scalar count_until pass
  nothing_left b v = refl

  container_root :
      (c : ℕ) (s b1 : Bytes) (v : DataNode)
      → ((c == b'[') || (c == b'{')) ≡ true
      → is_solid c ≡ true
      → read_value strtod 257 (at [] (c ∷ s)) ≡ ok v (at b1 [])
      → hjson_parse strtod (c ∷ s) ≡ parsed v
  unfolding hjson_parse
  container_root c s b1 v e solid run =
      ap (parse_root strtod (c ∷ s)) (skip_ws-solid [] c s solid)
      ∙ rw e (ap (whole nullptr) run ∙ nothing_left b1 v)

  reads_root :
      (v : DataNode)
      → IsReadable 128 v
      → (b1 : Bytes) × (read_value strtod 257 (at [] (serialize_value print_g scan 0 v ++ []))
          ≡ ok v (at b1 []))
  reads_root v h =
      behind_ws 256 (serialize_value print_g scan 0 v) v
        (serialize_value-Starts print_g scan 128 0 v h (omega arith))
        (value_at-serialize_value 128 0 256 v h (omega arith) (omega arith)) [] [] refl

  -- An array or an object without floats, int maps and binaries, of at most 128 containers inside each
  -- other, with integers of 64 bits and distinct keys in each object: the JSON that is written for it
  -- on one line is read by the HJSON parser as the same value.
  pub hjson_parse-data_serialize_json :
      (v : DataNode)
      → IsContainer v
      → IsReadable 128 v
      → hjson_parse strtod (data_serialize_json print_g scan v false) ≡ parsed v
  unfolding data_serialize_json
  hjson_parse-data_serialize_json (array xs) c h =
      let (b1, run) = reads_root (array xs) h in
      let text = array_text 0 xs [] (omega arith) in
      ap (hjson_parse strtod) (sym (append-nil (serialize_value print_g scan 0 (array xs))) ∙ text)
      ∙ container_root b'[' _ b1 (array xs) refl refl
          (ap (λ u. read_value strtod 257 (at [] u)) (sym text) ∙ run)
  hjson_parse-data_serialize_json (object fs) c h =
      let (b1, run) = reads_root (object fs) h in
      let text = object_text 0 fs [] (omega arith) in
      ap (hjson_parse strtod) (sym (append-nil (serialize_value print_g scan 0 (object fs))) ∙ text)
      ∙ container_root b'{' _ b1 (object fs) refl refl
          (ap (λ u. read_value strtod 257 (at [] u)) (sym text) ∙ run)
  hjson_parse-data_serialize_json _ c h = absurd c
