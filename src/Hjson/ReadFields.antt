-- ===== src/Hjson/ReadFields.antt =====
-- The loop over the members of an object in braces, on what the JSON serializer writes.
use async.Base.{
  ℕ, zero, suc, ◌+◌, ◌≤◌, ◌<◌, ◌≡◌, refl, sym, ap, ◌∙◌, true, false, ◌∷◌, ◌++◌, append_assoc, ◌==◌,
  Bytes, bytes_eq_comm, length, length-append, arith,
}
use async.Data.{DataNode, Fields, no_fields, field, object, size_fields, has_field, put_field}
use async.Data.Maps.{append_fields, append_fields-nil, append_fields_assoc, put_field-new}
use async.MsgPack.Insert.{has_field-put_field}
use async.Json.{serialize_string, serialize_value, value_fields}
use async.Hjson.Reader.{Reader, at, rest, skip_separator, skip_ws}
use async.Hjson.Strings.{Outcome, ok, and_then}
use async.Hjson.Keys.{read_key}
use async.Hjson.Values.{member_value, object_members, close_object, read_object}
use async.Hjson.Digits.{is_end}
use async.Hjson.ReadBack.{Gives, read_quoted_string-serialize_string}
use async.Hjson.ReadItems.{ReadsAs}
use async.Hjson.Starts.{
  IsReadable, FieldsReadable, skip_ws-solid, skip_ws-Starts, serialize_value-Starts,
  skip_separator-end,
}

-- No key of the second is one of the first.
abbrev Apart : Fields → Fields → Type 0
Apart made no_fields = Unit
Apart made (field k v fs) = (has_field k made ≡ false) × Apart made fs

nothing_Apart : (fs : Fields) → Apart no_fields fs
unfolding has_field
nothing_Apart no_fields = tt
nothing_Apart (field k v fs) = (refl, nothing_Apart fs)

put_field_new :
    (made ys : Fields) (k : Bytes) (v : DataNode)
    → has_field k made ≡ false
    → append_fields (put_field k v made) ys ≡ append_fields made (field k v ys)
put_field_new made ys k v h =
    ap (λ u. append_fields u ys) (put_field-new k v made h) ∙ append_fields_assoc made k v ys

Apart-put_field :
    (made fs : Fields) (k : Bytes) (v : DataNode)
    → Apart made fs
    → has_field k fs ≡ false
    → Apart (put_field k v made) fs
unfolding has_field
Apart-put_field made no_fields k v h e = tt
Apart-put_field made (field j w fs) k v h e =
    let later : has_field k fs ≡ false = ground arith in
    (
      ground (arith, has_field-put_field j k v made, bytes_eq_comm j k, h.0, e),
      Apart-put_field made fs k v h.1 later,
    )

read_key-serialize_string : (s t b : Bytes) → Gives (read_key (at b (serialize_string s ++ t))) s t
unfolding read_key serialize_string
read_key-serialize_string s t b = read_quoted_string-serialize_string s t b false

module _ (print_g : ℕ → ℕ → Bytes) (scan : Bytes → ℕ) (strtod : Bytes → ℕ × ℕ)
    (value : Reader → Outcome DataNode) (d depth : ℕ) (shallow : depth + 1 ≤ 128)
    (reads : (v : DataNode)
      → IsReadable d v
      → ReadsAs value (serialize_value print_g scan (depth + 1) v) v) where
  fields_end :
      (fs : Fields) (r : Bytes)
      → is_end (value_fields print_g scan false depth fs ++ (b'}' ∷ r)) ≡ true
  unfolding value_fields
  fields_end no_fields r = refl
  fields_end (field k v fs) r = refl

  member_step :
      (f : ℕ) (made : Fields) (b : Bytes) (c : ℕ) (s b1 s1 b2 s2 : Bytes) (k : Bytes) (v : DataNode)
      → (c == b'}') ≡ false
      → read_key (at b (c ∷ s)) ≡ ok k (at b1 (b':' ∷ s1))
      → skip_ws (at (b':' ∷ b1) s1) ≡ at (b':' ∷ b1) s1
      → value (at (b':' ∷ b1) s1) ≡ ok v (at b2 s2)
      → object_members strtod value (suc f) true made (at b (c ∷ s))
        ≡ object_members strtod value f true (put_field k v made) (skip_separator (at b2 s2))
  unfolding object_members
  member_step f made b c s b1 s1 b2 s2 k v e key still run =
      let colon = skip_ws-solid b1 b':' s1 refl in
      let read_it : member_value strtod value (skip_ws (at b1 (b':' ∷ s1))) ≡ ok v (at b2 s2) =
        ap (member_value strtod value) colon ∙ ap value still ∙ run in
      rw (e, key, object_members)
        (ap
          (λ o.
            and_then o (λ val r.
              object_members strtod value f true (put_field k val made) (skip_separator r)))
          read_it)

  -- A text of fields in front of the closing brace is the key, the colon, the value and the others.
  field_text :
      (k : Bytes) (v : DataNode) (fs : Fields) (r : Bytes)
      → (value_fields print_g scan true depth (field k v fs) ++ (b'}' ∷ r))
        ≡ serialize_string k
          ++ (b':'
              ∷ (serialize_value print_g scan (depth + 1) v
                  ++ (value_fields print_g scan false depth fs ++ (b'}' ∷ r))))
  unfolding value_fields
  field_text k v fs r =
      let written = serialize_value print_g scan (depth + 1) v in
      let behind = value_fields print_g scan false depth fs in
      append_assoc (serialize_string k) (b':' ∷ (written ++ behind)) (b'}' ∷ r)
      ∙ ap (λ u. serialize_string k ++ (b':' ∷ u)) (append_assoc written behind (b'}' ∷ r))

  at_fields :
      (b : Bytes) (fs : Fields) (r : Bytes)
      → skip_ws (at b (value_fields print_g scan true depth fs ++ (b'}' ∷ r)))
        ≡ at b (value_fields print_g scan true depth fs ++ (b'}' ∷ r))
  unfolding value_fields serialize_string
  at_fields b no_fields r = skip_ws-solid b b'}' r refl
  at_fields b (field k v fs) r = skip_ws-solid b 34 _ refl

  next_field :
      (b : Bytes) (fs : Fields) (r : Bytes)
      → (b1 : Bytes) × (skip_separator
            (at b (value_fields print_g scan false depth fs ++ (b'}' ∷ r)))
          ≡ at b1 (value_fields print_g scan true depth fs ++ (b'}' ∷ r)))
  unfolding value_fields skip_separator
  next_field b no_fields r = (b, skip_separator-end b b'}' r refl refl)
  next_field b (field k v fs) r = (b',' ∷ b, at_fields (b',' ∷ b) (field k v fs) r)

  one_field :
      (f : ℕ) (made : Fields) (k : Bytes) (v : DataNode) (left b : Bytes)
      → IsReadable d v
      → is_end left ≡ true
      → (b1 : Bytes) × (object_members strtod value (suc f) true made (
            at b
              (serialize_string k ++ (b':' ∷ (serialize_value print_g scan (depth + 1) v ++ left))))
          ≡ object_members strtod value f true (put_field k v made) (skip_separator (at b1 left)))
  unfolding serialize_string
  one_field f made k v left b h e =
      let written = serialize_value print_g scan (depth + 1) v in
      let (b1, key) = read_key-serialize_string k (b':' ∷ (written ++ left)) b in
      let (b2, run) = reads v h (b':' ∷ b1) left e in
      (
        b2,
        member_step f made b 34 _ b1 (written ++ left) b2 left k v refl key
            (skip_ws-Starts (b':' ∷ b1) written left
              (serialize_value-Starts print_g scan d (depth + 1) v h shallow))
            run,
      )

  pub object_members-value_fields :
      (fuel : ℕ) (made fs : Fields) (b r : Bytes)
      → FieldsReadable d fs
      → Apart made fs
      → size_fields fs < fuel
      → Gives
          (object_members strtod value fuel true made
            (at b (value_fields print_g scan true depth fs ++ (b'}' ∷ r))))
          (append_fields made fs)
          (b'}' ∷ r)
  unfolding IsReadable size_fields value_fields object_members append_fields
  object_members-value_fields zero made fs b r h a k = absurd (omega arith)
  object_members-value_fields (suc f) made no_fields b r h a k =
      (b, ap (λ m. ok m (at b (b'}' ∷ r))) (sym (append_fields-nil made)))
  object_members-value_fields (suc f) made (field k v fs) b r h a few =
      let left = value_fields print_g scan false depth fs ++ (b'}' ∷ r) in
      let (b1, run) = one_field f made k v left b h.1 (fields_end fs r) in
      let (b2, next) = next_field b1 fs r in
      let (b3, more) =
        object_members-value_fields f (put_field k v made) fs b2 r h.2
          (Apart-put_field made fs k v a.1 h.0) (omega arith) in
      (
        b3,
        ap (λ u. object_members strtod value (suc f) true made (at b u)) (field_text k v fs r)
            ∙ run
            ∙ ap (object_members strtod value f true (put_field k v made)) next
            ∙ more
            ∙ ap (λ m. ok m (at b3 (b'}' ∷ r))) (put_field_new made fs k v a.0),
      )

  size_fields-value_fields :
      (fs : Fields) → size_fields fs ≤ length (value_fields print_g scan false depth fs)
  unfolding value_fields size_fields
  size_fields-value_fields no_fields = omega arith
  size_fields-value_fields (field k v fs) =
      let written = serialize_value print_g scan (depth + 1) v in
      let behind = value_fields print_g scan false depth fs in
      omega (
        arith,
        size_fields-value_fields fs,
        length-append written behind,
        length-append (serialize_string k) (b':' ∷ (written ++ behind)),
      )

  value_fields_comma :
      (fs : Fields)
      → length (value_fields print_g scan false depth fs)
        ≤ suc (length (value_fields print_g scan true depth fs))
  unfolding value_fields
  value_fields_comma no_fields = omega arith
  value_fields_comma (field k v fs) = omega arith

  -- The text behind the opening brace, up to the closing one, in front of anything.
  pub read_object-value_fields :
      (fs : Fields) (b r : Bytes)
      → FieldsReadable d fs
      → Gives
          (read_object strtod value true
            (at b (value_fields print_g scan true depth fs ++ (b'}' ∷ r))))
          (object fs)
          r
  unfolding read_object append_fields
  read_object-value_fields fs b r h =
      let left = value_fields print_g scan true depth fs ++ (b'}' ∷ r) in
      let few : size_fields fs < suc (length left) = omega (
        arith,
        size_fields-value_fields fs,
        value_fields_comma fs,
        length-append (value_fields print_g scan true depth fs) (b'}' ∷ r),
      ) in
      let (b1, run) =
        object_members-value_fields (suc (length left)) no_fields fs b r h (nothing_Apart fs) few in
      (
        b'}' ∷ b1,
        ap
              (λ q.
                and_then (object_members strtod value (suc (length (rest q))) true no_fields q)
                  (close_object strtod value true))
              (at_fields b fs r)
            ∙ ap (λ o. and_then o (close_object strtod value true)) run,
      )
