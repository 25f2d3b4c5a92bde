-- ===== src/Hjson/Members.antt =====
-- The loops over the members of objects and arrays, and the levels of values.
use async.Base.{
  ℕ, zero, suc, ◌^◌, ◌≤◌, ◌<◌, ◌≡◌, Bool, true, false, ◌&&◌, [], ◌∷◌, ◌==◌, Bytes, length, All,
  arith, Bool-cases, inl, inr,
}
use async.Data.{DataNode, Items, Fields, string, no_items, no_fields, put_field}
use async.Hjson.Scan.{is_quote}
use async.Hjson.Reader.{Reader, at, rest, step, peek, skip_ws, skip_separator}
use async.Hjson.Strings.{Outcome}
use async.Hjson.Values.{
  push_back, member_value, object_members, close_object, read_object, array_members, read_array,
  value_at, read_value,
}
use async.Hjson.Skips.{Left, Left-here, Left-after, Left-step, Left-skip_ws, Left-skip_separator}
use async.Hjson.Content.{is_content, skip_ws-remaining}
use async.Hjson.Ensures.{Ensures, holds, refused, Ensures-weaken, Ensures-if, Ensures-bind}
use async.Hjson.Quoted.{read_quoted_string-Ensures, read_key-Ensures}
use async.Hjson.Document.{
  IsDocument, ItemsDocument, FieldsDocument, ItemsDocument-push_back, FieldsDocument-put_field,
}
use async.Hjson.Scalars.{is_control}
use async.Hjson.Unquoted.{Within, read_unquoted_value-Ensures}

module _ (strtod : Bytes → ℕ × ℕ) (P : ℕ → Type 0) (T : Type 0) (size : ℕ)
    (blame : (c : ℕ) → P c → is_control c ≡ true → T) (large : 2 ^ 63 ≤ size → T) where
  -- The calls for the values inside.
  module _ (d : ℕ) (value : Reader → Outcome DataNode)
      (reads : (r : Reader)
        → All P (rest r)
        → length (rest r) ≤ size
        → Ensures T (Within P d (length (rest r))) (value r)) where
    member_value-Ensures :
        (r : Reader)
        → All P (rest r)
        → length (rest r) ≤ size
        → Ensures T (Within P d (length (rest r))) (member_value strtod value r)
    member_value-Ensures r good small =
        let next = Left-step r good in
        let white = Left-after next (Left-skip_ws (step r) next.good) in
        Ensures-if (peek r == b':')
          (λ e.
            Ensures-weaken (reads (skip_ws (step r)) white.good (omega (arith, white.short)))
              (λ v r1 w. record {
                document = w.document;
                good = w.good;
                shorter = omega (arith, w.shorter, white.short);
              }))
          (λ e. refused)

    object_members-Ensures :
        (fuel : ℕ) (braced : Bool) (made : Fields) (r : Reader)
        → length (rest r) < fuel
        → length (rest r) ≤ size
        → All P (rest r)
        → FieldsDocument d made
        → Ensures T
            (λ fs r1. FieldsDocument d fs × Left P (rest r) r1)
            (object_members strtod value fuel braced made r)
    unfolding object_members
    object_members-Ensures zero braced made r h small good doc = absurd (omega arith)
    object_members-Ensures (suc fuel) braced made (at b []) h small good doc =
        holds (doc, Left-here good)
    object_members-Ensures (suc fuel) braced made (at b (c ∷ s)) h small good doc =
        elim (Bool-cases (braced && (c == b'}'))) [
          | inl e ↦ rw (object_members, e) (holds (doc, Left-here good))
          | inr e ↦
              rw (object_members, e)
                (Ensures-bind (read_key-Ensures P T (at b (c ∷ s)) good) (λ key r l.
                  let white = Left-after l (Left-skip_ws r l.good) in
                  Ensures-bind
                    (member_value-Ensures (skip_ws r) white.good (omega (arith, white.short)))
                    (λ val r1 w.
                      let next = Left-skip_separator r1 w.good in
                      Ensures-weaken
                        (object_members-Ensures fuel braced (put_field key val made)
                          (skip_separator r1) (omega (arith, w.shorter, next.short, white.short))
                          (omega (arith, w.shorter, next.short, white.short)) next.good
                          (FieldsDocument-put_field d key val made doc w.document))
                        (λ fs r2 k. (
                          k.0,
                          record {
                            good = k.1.good;
                            short = omega (arith, k.1.short, w.shorter, next.short, white.short);
                          },
                        )))))
        ]

    close_object-Ensures :
        (braced : Bool) (s : Bytes) (fs : Fields) (r : Reader)
        → FieldsDocument d fs
        → Left P s r
        → Ensures T
            (λ v r1. IsDocument (suc d) v × Left P s r1)
            (close_object strtod value braced fs r)
    unfolding IsDocument
    close_object-Ensures false s fs r doc l = holds (doc, l)
    close_object-Ensures true s fs r doc l =
        Ensures-if (peek r == b'}') (λ e. holds (doc, Left-after l (Left-step r l.good)))
          (λ e. refused)

    pub read_object-Ensures :
        (braced : Bool) (r : Reader)
        → All P (rest r)
        → length (rest r) ≤ size
        → Ensures T
            (λ v r1. IsDocument (suc d) v × Left P (rest r) r1)
            (read_object strtod value braced r)
    unfolding read_object IsDocument
    read_object-Ensures braced r good small =
        let white = Left-skip_ws r good in
        let all =
          object_members-Ensures (suc (length (rest (skip_ws r)))) braced no_fields (skip_ws r)
            (omega arith) (omega (arith, white.short)) white.good tt in
        Ensures-bind all
          (λ fs r1 k. close_object-Ensures braced (rest r) fs r1 k.0 (Left-after white k.1))

    array_members-Ensures :
        (fuel : ℕ) (made : Items) (r : Reader)
        → length (rest r) < fuel
        → length (rest r) ≤ size
        → All P (rest r)
        → ItemsDocument d made
        → Ensures T
            (λ xs r1. ItemsDocument d xs × Left P (rest r) r1)
            (array_members strtod value fuel made r)
    unfolding array_members
    array_members-Ensures zero made r h small good doc = absurd (omega arith)
    array_members-Ensures (suc fuel) made (at b []) h small good doc = holds (doc, Left-here good)
    array_members-Ensures (suc fuel) made (at b (c ∷ s)) h small good doc =
        elim (Bool-cases (c == b']')) [
          | inl e ↦ rw (array_members, e) (holds (doc, Left-here good))
          | inr e ↦
              rw (array_members, e)
                (Ensures-bind (reads (at b (c ∷ s)) good small) (λ val r w.
                  let next = Left-skip_separator r w.good in
                  Ensures-weaken
                    (array_members-Ensures fuel (push_back made val) (skip_separator r)
                      (omega (arith, w.shorter, next.short)) (omega (arith, w.shorter, next.short))
                      next.good (ItemsDocument-push_back d made val doc w.document))
                    (λ xs r2 k. (
                      k.0,
                      record {
                        good = k.1.good;
                        short = omega (arith, k.1.short, w.shorter, next.short);
                      },
                    ))))
        ]

    read_array-Ensures :
        (r : Reader)
        → All P (rest r)
        → length (rest r) ≤ size
        → Ensures T (λ v r1. IsDocument (suc d) v × Left P (rest r) r1) (read_array strtod value r)
    unfolding read_array IsDocument
    read_array-Ensures r good small =
        let white = Left-skip_ws r good in
        let all =
          array_members-Ensures (suc (length (rest (skip_ws r)))) no_items (skip_ws r) (omega arith)
            (omega (arith, white.short)) white.good tt in
        Ensures-bind all (λ xs r1 k.
          let whole = Left-after white k.1 in
          Ensures-if (peek r1 == b']')
            (λ e. holds (k.0, Left-after whole (Left-step r1 whole.good))) (λ e. refused))

    value_at-Ensures :
        (r : Reader)
        → is_content (rest r) ≡ true
        → All P (rest r)
        → length (rest r) ≤ size
        → Ensures T (Within P (suc d) (length (rest r))) (value_at strtod value r)
    unfolding IsDocument
    value_at-Ensures (at b []) content good small = refused
    value_at-Ensures (at b (c ∷ s)) content good small =
        Ensures-if (c == b'{')
          (λ e.
            Ensures-weaken (read_object-Ensures true (at (c ∷ b) s) good.1 (omega arith)) inside)
          (λ e.
            Ensures-if (c == b'[')
              (λ k. Ensures-weaken (read_array-Ensures (at (c ∷ b) s) good.1 (omega arith)) inside)
              (λ k.
                Ensures-if (is_quote c)
                  (λ l.
                    Ensures-bind (read_quoted_string-Ensures P T b c s true good.1)
                      (λ text r m. holds (inside (string text) r (tt, m))))
                  (λ l.
                    read_unquoted_value-Ensures strtod P T size (suc d) blame large b c s content
                      good (omega arith))))
      where
        inside :
            (v : DataNode) (r : Reader)
            → (IsDocument (suc d) v × Left P s r)
            → Within P (suc d) (suc (length s)) v r
        inside v r k = record {
          document = k.0;
          good = k.1.good;
          shorter = omega (arith, k.1.short);
        }

  pub read_value-Ensures :
      (levels : ℕ) (r : Reader)
      → All P (rest r)
      → length (rest r) ≤ size
      → Ensures T (Within P levels (length (rest r))) (read_value strtod levels r)
  unfolding read_value
  read_value-Ensures zero r good small = refused
  read_value-Ensures (suc levels) r good small =
      let white = Left-skip_ws r good in
      Ensures-weaken
        (value_at-Ensures levels (λ r1. read_value strtod levels r1)
          (λ r1. read_value-Ensures levels r1) (skip_ws r) (skip_ws-remaining r).1 white.good
          (omega (arith, white.short)))
        (λ v r1 w. record {
          document = w.document;
          good = w.good;
          shorter = omega (arith, w.shorter, white.short);
        })
