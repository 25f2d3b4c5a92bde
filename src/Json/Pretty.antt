-- ===== src/Json/Pretty.antt =====
-- The pretty text is the compact text with white space between its tokens.
use async.Base.{
  ℕ, zero, suc, ◌+◌, ◌*◌, ◌≡◌, refl, ap, sym, ◌∙◌, Bool, true, false, [], ◌∷◌, ◌++◌, append_assoc,
  append-nil, ltb, if◌then◌else◌, Bytes,
}
use async.Data.{DataNode, Items, Fields, array, object, no_items, item, no_fields, field}
use async.Json.{
  k_max_serialize_depth, null_text, spaces, serialize_string, serialize_value, value_items,
  value_fields, serialize_value_pretty, pretty_items, pretty_fields, data_serialize_json,
}
use async.Json.Compress.{
  outside, compress, is_plain, is_space, IsPlainText, compress-plain_char, compress-space,
}
use async.Json.Plain.{Squeezes, Squeezes-plain, Squeezes-string, Squeezes-serialize_leaf}

Squeezes-append : (s s' t t' : Bytes) → Squeezes s s' → Squeezes t t' → Squeezes (s ++ t) (s' ++ t')
Squeezes-append s s' t t' h k = record {
  before = λ rest.
      ap (compress outside) (append_assoc s t rest)
      ∙ h.before (t ++ rest)
      ∙ ap (λ l. s' ++ l) (k.before rest)
      ∙ sym (append_assoc s' t' (compress outside rest));
}

Squeezes-char : (c : ℕ) (s t : Bytes) → is_plain c ≡ true → Squeezes s t → Squeezes (c ∷ s) (c ∷ t)
Squeezes-char c s t h k = record {
  before = λ rest. compress-plain_char c (s ++ rest) h ∙ ap (λ l. c ∷ l) (k.before rest);
}

Squeezes-space : (c : ℕ) (s t : Bytes) → is_space c ≡ true → Squeezes s t → Squeezes (c ∷ s) t
Squeezes-space c s t h k = record {
  before = λ rest. compress-space c (s ++ rest) h ∙ k.before rest;
}

Squeezes-nil : Squeezes [] []
Squeezes-nil = record { before = λ rest. refl }

Squeezes-spaces : (n : ℕ) (s t : Bytes) → Squeezes s t → Squeezes (spaces n ++ s) t
unfolding spaces
Squeezes-spaces zero s t h = h
Squeezes-spaces (suc n) s t h = Squeezes-space 32 (spaces n ++ s) t refl (Squeezes-spaces n s t h)

-- A container: its bracket, its members, a line break, the indent, and its bracket.
Squeezes-lines :
    (left right n : ℕ) (s t : Bytes)
    → is_plain left ≡ true
    → is_plain right ≡ true
    → Squeezes s t
    → Squeezes (left ∷ 10 ∷ (s ++ (10 ∷ (spaces n ++ (right ∷ []))))) (left ∷ (t ++ (right ∷ [])))
Squeezes-lines left right n s t h k m = Squeezes-char left _ _ h (
    Squeezes-space 10 _ _ refl (
      Squeezes-append s t _ (right ∷ []) m (
        Squeezes-space 10 _ _ refl
          (Squeezes-spaces n _ _ (Squeezes-char right [] [] k Squeezes-nil)))))

Squeezes-comma :
    (first : Bool) (s t : Bytes)
    → Squeezes s t
    → Squeezes
        ((if first then [] else b',' ∷ 10 ∷ []) ++ s)
        ((if first then [] else b',' ∷ []) ++ t)
Squeezes-comma true s t h = h
Squeezes-comma false s t h = Squeezes-char b',' _ _ refl (Squeezes-space 10 _ _ refl h)

-- Both printers write `null` below the depth limit.
Squeezes-limit :
    (deep : Bool) (s t : Bytes)
    → Squeezes s t
    → Squeezes (if deep then null_text else s) (if deep then null_text else t)
Squeezes-limit true s t h = Squeezes-plain null_text (refl, (refl, (refl, (refl, tt))))
Squeezes-limit false s t h = h

module _ (print_g : ℕ → ℕ → Bytes) (strtod : Bytes → ℕ)
    (plain_g : (p v : ℕ) → IsPlainText (print_g p v)) where
  mutual
    unfolding serialize_value serialize_value_pretty

    squeezed :
        (d : ℕ) (v : DataNode)
        → Squeezes (serialize_value_pretty print_g strtod d v) (serialize_value print_g strtod d v)
    squeezed d (array no_items) =
        Squeezes-limit (ltb k_max_serialize_depth d) _ _
          (Squeezes-plain (b'[' ∷ b']' ∷ []) (refl, (refl, tt)))
    squeezed d (array (item v xs)) =
        Squeezes-limit (ltb k_max_serialize_depth d) _ _
          (Squeezes-lines b'[' b']' (d * 4) _ _ refl refl (squeezed_items true d (item v xs)))
    squeezed d (object no_fields) =
        Squeezes-limit (ltb k_max_serialize_depth d) _ _
          (Squeezes-plain (b'{' ∷ b'}' ∷ []) (refl, (refl, tt)))
    squeezed d (object (field k v fs)) =
        Squeezes-limit (ltb k_max_serialize_depth d) _ _
          (Squeezes-lines b'{' b'}' (d * 4) _ _ refl refl (squeezed_fields true d (field k v fs)))
    squeezed d v =
        Squeezes-limit (ltb k_max_serialize_depth d) _ _
          (Squeezes-serialize_leaf print_g strtod plain_g v)

    squeezed_items :
        (first : Bool) (d : ℕ) (xs : Items)
        → Squeezes (pretty_items print_g strtod first d xs) (value_items print_g strtod first d xs)
    squeezed_items first d no_items = Squeezes-nil
    squeezed_items first d (item v xs) = Squeezes-comma first _ _ (
        Squeezes-spaces ((d + 1) * 4) _ _
          (Squeezes-append _ _ _ _ (squeezed (d + 1) v) (squeezed_items false d xs)))

    squeezed_fields :
        (first : Bool) (d : ℕ) (fs : Fields)
        → Squeezes
            (pretty_fields print_g strtod first d fs)
            (value_fields print_g strtod first d fs)
    squeezed_fields first d no_fields = Squeezes-nil
    squeezed_fields first d (field k v fs) = Squeezes-comma first _ _ (
        Squeezes-spaces ((d + 1) * 4) _ _ (
          Squeezes-append (serialize_string k) (serialize_string k) _ _ (Squeezes-string k) (
            Squeezes-char b':' _ _ refl (
              Squeezes-space 32 _ _ refl
                (Squeezes-append _ _ _ _ (squeezed (d + 1) v) (squeezed_fields false d fs))))))

  -- The pretty text without the white space outside its strings is the compact text, where the text
  -- that "%.*g" gives holds no white space and no quote.
  pub compress-data_serialize_json :
      (v : DataNode)
      → compress outside (data_serialize_json print_g strtod v true)
        ≡ data_serialize_json print_g strtod v false
  unfolding data_serialize_json compress
  compress-data_serialize_json v =
      ap (compress outside) (sym (append-nil (serialize_value_pretty print_g strtod 0 v)))
      ∙ (squeezed 0 v).before []
      ∙ append-nil (serialize_value print_g strtod 0 v)
