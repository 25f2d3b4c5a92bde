-- ===== src/Hjson/ReadItems.antt =====
-- The loop over the items of an array, on what the JSON serializer writes.
use async.Base.{
  ℕ, zero, suc, ◌+◌, ◌≤◌, ◌<◌, ◌≡◌, refl, sym, ap, subst, ◌∙◌, true, false, ◌∷◌, ◌++◌, append_assoc,
  ◌==◌, Bytes, length, length-append, arith,
}
use async.Data.{DataNode, Items, no_items, item, array, size_items}
use async.Json.{serialize_value, value_items}
use async.Hjson.Reader.{Reader, at, rest, skip_separator, skip_ws}
use async.Hjson.Strings.{Outcome, ok, and_then}
use async.Hjson.Values.{push_back, array_members, close_array, read_array}
use async.Hjson.Digits.{is_end}
use async.Hjson.ReadBack.{Gives}
use async.Hjson.Starts.{
  IsReadable, AllReadable, Starts, is_first, serialize_value-Starts, skip_ws-solid, skip_ws-Starts,
  skip_separator-comma, skip_separator-end,
}

abbrev pub joined : Items → Items → Items
joined no_items ys = ys
joined (item v xs) ys = item v (joined xs ys)

joined-push_back :
    (xs ys : Items) (v : DataNode) → joined (push_back xs v) ys ≡ joined xs (item v ys)
unfolding push_back
joined-push_back no_items ys v = refl
joined-push_back (item w xs) ys v = ap (item w) (joined-push_back xs ys v)

joined_nothing : (xs : Items) → joined xs no_items ≡ xs
joined_nothing no_items = refl
joined_nothing (item v xs) = ap (item v) (joined_nothing xs)

-- What a text that is written at some depth is read as, in front of any end of a value.
abbrev pub ReadsAs : (value : Reader → Outcome DataNode) → (s : Bytes) → DataNode → Type 0
ReadsAs value s v = (b r : Bytes) → is_end r ≡ true → Gives (value (at b (s ++ r))) v r

first_no_bracket : (c : ℕ) → is_first c ≡ true → (c == b']') ≡ false
first_no_bracket c h = ground arith

module _ (print_g : ℕ → ℕ → Bytes) (scan : Bytes → ℕ) (strtod : Bytes → ℕ × ℕ)
    (value : Reader → Outcome DataNode) (d depth : ℕ) (shallow : depth + 1 ≤ 128)
    (reads : (v : DataNode)
      → IsReadable d v
      → ReadsAs value (serialize_value print_g scan (depth + 1) v) v) where
  items_end :
      (xs : Items) (r : Bytes)
      → is_end (value_items print_g scan false depth xs ++ (b']' ∷ r)) ≡ true
  unfolding value_items
  items_end no_items r = refl
  items_end (item v xs) r = refl

  -- Between two items, or behind the last one.
  next_item :
      (b : Bytes) (xs : Items) (r : Bytes)
      → AllReadable d xs
      → (b1 : Bytes) × (skip_separator
            (at b (value_items print_g scan false depth xs ++ (b']' ∷ r)))
          ≡ at b1 (value_items print_g scan true depth xs ++ (b']' ∷ r)))
  unfolding value_items IsReadable
  next_item b no_items r h = (b, skip_separator-end b b']' r refl refl)
  next_item b (item v xs) r h =
      let written = serialize_value print_g scan (depth + 1) v in
      let behind = value_items print_g scan false depth xs in
      (
        b',' ∷ b,
        subst (λ u. skip_separator (at b (b',' ∷ u)) ≡ at (b',' ∷ b) u)
            (sym (append_assoc written behind (b']' ∷ r)))
            (skip_separator-comma b written (behind ++ (b']' ∷ r))
              (serialize_value-Starts print_g scan d (depth + 1) v h.0 shallow)),
      )

  item_step :
      (f : ℕ) (made : Items) (b : Bytes) (c : ℕ) (s b1 s1 : Bytes) (v : DataNode)
      → (c == b']') ≡ false
      → value (at b (c ∷ s)) ≡ ok v (at b1 s1)
      → array_members strtod value (suc f) made (at b (c ∷ s))
        ≡ array_members strtod value f (push_back made v) (skip_separator (at b1 s1))
  unfolding array_members
  item_step f made b c s b1 s1 v e run = rw (e, run, array_members) refl

  one_item :
      (f : ℕ) (made : Items) (b s t b1 s1 : Bytes) (v : DataNode)
      → Starts s
      → value (at b (s ++ t)) ≡ ok v (at b1 s1)
      → array_members strtod value (suc f) made (at b (s ++ t))
        ≡ array_members strtod value f (push_back made v) (skip_separator (at b1 s1))
  one_item f made b s t b1 s1 v h =
      subst
        (λ u.
          value (at b (u ++ t)) ≡ ok v (at b1 s1)
          → array_members strtod value (suc f) made (at b (u ++ t))
            ≡ array_members strtod value f (push_back made v) (skip_separator (at b1 s1)))
        (sym h.whole)
        (item_step f made b h.head (h.tail ++ t) b1 s1 v (first_no_bracket h.head h.first))

  pub array_members-value_items :
      (fuel : ℕ) (made xs : Items) (b r : Bytes)
      → AllReadable d xs
      → size_items xs < fuel
      → Gives
          (array_members strtod value fuel made
            (at b (value_items print_g scan true depth xs ++ (b']' ∷ r))))
          (joined made xs)
          (b']' ∷ r)
  unfolding value_items IsReadable array_members size_items
  array_members-value_items zero made xs b r h k = absurd (omega arith)
  array_members-value_items (suc f) made no_items b r h k =
      (b, ap (λ m. ok m (at b (b']' ∷ r))) (sym (joined_nothing made)))
  array_members-value_items (suc f) made (item v xs) b r h k =
      let written = serialize_value print_g scan (depth + 1) v in
      let left = value_items print_g scan false depth xs ++ (b']' ∷ r) in
      let (b1, run) = reads v h.0 b left (items_end xs r) in
      let (b2, next) = next_item b1 xs r h.1 in
      let (b3, more) = array_members-value_items f (push_back made v) xs b2 r h.1 (omega arith) in
      (
        b3,
        ap (λ u. array_members strtod value (suc f) made (at b u))
              (append_assoc written (value_items print_g scan false depth xs) (b']' ∷ r))
            ∙ one_item f made b written left b1 left v
                (serialize_value-Starts print_g scan d (depth + 1) v h.0 shallow) run
            ∙ ap (array_members strtod value f (push_back made v)) next
            ∙ more
            ∙ ap (λ m. ok m (at b3 (b']' ∷ r))) (joined-push_back made xs v),
      )

  size_items-value_items :
      (xs : Items) → size_items xs ≤ length (value_items print_g scan false depth xs)
  unfolding value_items size_items
  size_items-value_items no_items = omega arith
  size_items-value_items (item v xs) = omega (
    arith,
    size_items-value_items xs,
    length-append (serialize_value print_g scan (depth + 1) v)
        (value_items print_g scan false depth xs),
  )

  value_items_comma :
      (xs : Items)
      → length (value_items print_g scan false depth xs)
        ≤ suc (length (value_items print_g scan true depth xs))
  unfolding value_items
  value_items_comma no_items = omega arith
  value_items_comma (item v xs) = omega arith

  at_items :
      (b : Bytes) (xs : Items) (r : Bytes)
      → AllReadable d xs
      → skip_ws (at b (value_items print_g scan true depth xs ++ (b']' ∷ r)))
        ≡ at b (value_items print_g scan true depth xs ++ (b']' ∷ r))
  unfolding value_items IsReadable
  at_items b no_items r h = skip_ws-solid b b']' r refl
  at_items b (item v xs) r h =
      let written = serialize_value print_g scan (depth + 1) v in
      let behind = value_items print_g scan false depth xs in
      subst (λ u. skip_ws (at b u) ≡ at b u) (sym (append_assoc written behind (b']' ∷ r)))
        (skip_ws-Starts b written (behind ++ (b']' ∷ r))
          (serialize_value-Starts print_g scan d (depth + 1) v h.0 shallow))

  -- The text behind the opening bracket, up to the closing one, in front of anything.
  pub read_array-value_items :
      (xs : Items) (b r : Bytes)
      → AllReadable d xs
      → Gives
          (read_array strtod value (at b (value_items print_g scan true depth xs ++ (b']' ∷ r))))
          (array xs)
          r
  unfolding read_array
  read_array-value_items xs b r h =
      let left = value_items print_g scan true depth xs ++ (b']' ∷ r) in
      let few : size_items xs < suc (length left) = omega (
        arith,
        size_items-value_items xs,
        value_items_comma xs,
        length-append (value_items print_g scan true depth xs) (b']' ∷ r),
      ) in
      let (b1, run) = array_members-value_items (suc (length left)) no_items xs b r h few in
      (
        b']' ∷ b1,
        ap
              (λ q.
                and_then (array_members strtod value (suc (length (rest q))) no_items q)
                  (close_array strtod value))
              (at_items b xs r h)
            ∙ ap (λ o. and_then o (close_array strtod value)) run,
      )
