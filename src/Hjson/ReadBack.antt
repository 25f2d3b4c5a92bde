-- ===== src/Hjson/ReadBack.antt =====
-- Strings that the JSON serializer writes, read by the HJSON parser.
use async.Base.{
  ℕ, zero, suc, ◌+◌, ◌*◌, ◌/◌, ◌%◌, ◌≤◌, ◌<◌, ◌≡◌, refl, sym, ap, subst, ◌∙◌, Bool, true, false, [],
  ◌∷◌, ◌++◌, append_assoc, append-nil, some, ltb, ◌==◌, if◌then◌else◌, Bytes, length, take, arith,
  length-append,
}
use async.Json.{quote, backslash, hex_digit, escape_char, escape_all, serialize_string}
use async.Hex.{digit_value}
use async.Hjson.Scan.{is_special, count_until, find_quote_or_special_scalar}
use async.Hjson.Reader.{at, pass}
use async.Hjson.Strings.{
  Outcome, ok, utf8_encode, parse_u_escape, escape_value, quoted, read_string_body,
  read_quoted_string,
}

-- A part of the text was read, and `t` is left.
abbrev pub Gives {ℓ} : {A : Type ℓ} → Outcome A → A → Bytes → Type ℓ
Gives o a t = (b : Bytes) × (o ≡ ok a (at b t))

-- A character that needs no look goes to the string.
quoted_plain :
    (f : ℕ) (out b : Bytes) (c : ℕ) (s : Bytes)
    → is_special 34 c ≡ false
    → quoted (suc f) 34 out (at b (c ∷ s)) ≡ quoted (suc f) 34 (out ++ (c ∷ [])) (at (c ∷ b) s)
unfolding quoted find_quote_or_special_scalar count_until pass
quoted_plain f out b c s e =
    rw (e, append_assoc out (c ∷ []) (take (count_until (is_special 34) s) s)) refl

quoted_end :
    (f : ℕ) (out b s : Bytes) → quoted (suc f) 34 out (at b (34 ∷ s)) ≡ ok out (at (34 ∷ b) s)
unfolding quoted find_quote_or_special_scalar count_until pass
quoted_end f out b s = ap (λ o. ok o (at (34 ∷ b) s)) (append-nil out)

quoted_escaped :
    (f : ℕ) (out b : Bytes) (e v : ℕ) (s : Bytes)
    → (e == b'u') ≡ false
    → escape_value e ≡ some v
    → quoted (suc f) 34 out (at b (92 ∷ e ∷ s)) ≡ quoted f 34 (out ++ (v ∷ [])) (at (e ∷ 92 ∷ b) s)
unfolding quoted find_quote_or_special_scalar count_until pass
quoted_escaped f out b e v s ne h = rw (ne, h, append-nil out) refl

digit_back : (d : ℕ) → d < 16 → digit_value (hex_digit d) ≡ some d
digit_back d h = ground arith

quoted_unicode :
    (f : ℕ) (out b : Bytes) (c : ℕ) (s : Bytes)
    → c < 32
    → (b1 : Bytes) × (quoted
          (suc f)
          34
          out
          (at b (92 ∷ b'u' ∷ b'0' ∷ b'0' ∷ hex_digit (c / 16) ∷ hex_digit (c % 16) ∷ s))
        ≡ quoted f 34 (out ++ (c ∷ [])) (at b1 s))
unfolding quoted find_quote_or_special_scalar count_until pass parse_u_escape utf8_encode
quoted_unicode f out b c s small =
    let whole : (((0 * 16 + 0) * 16 + 0) * 16 + c / 16) * 16 + c % 16 ≡ c = omega arith in
    let low : ltb c 0x80 ≡ true = ground arith in
    (
      hex_digit (c % 16) ∷ hex_digit (c / 16) ∷ b'0' ∷ b'0' ∷ b'u' ∷ 92 ∷ b,
      rw
          (
            digit_back (c / 16) (omega arith),
            digit_back (c % 16) (omega arith),
            append-nil out,
            whole,
            low,
          )
          refl,
    )

-- What was written for a character is read as that character.
abbrev Steps : (f : ℕ) (out b : Bytes) (c : ℕ) (text s : Bytes) → Type 0
Steps f out b c text s =
    (g : ℕ) × (b1 : Bytes) × (f ≤ g)
    × (quoted (suc f) 34 out (at b (text ++ s)) ≡ quoted g 34 (out ++ (c ∷ [])) (at b1 s))

escaped_step :
    (f : ℕ) (out b : Bytes) (c e : ℕ) (s : Bytes)
    → (e == b'u') ≡ false
    → escape_value e ≡ some c
    → Steps f out b c (92 ∷ e ∷ []) s
escaped_step f out b c e s ne h = (f, e ∷ 92 ∷ b, omega arith, quoted_escaped f out b e c s ne h)

escape_char-Steps : (f : ℕ) (out b : Bytes) (c : ℕ) (s : Bytes) → Steps f out b c (escape_char c) s
unfolding escape_char
escape_char-Steps f out b c s = pick (c == quote) _ _ (simple 34 34 refl refl) (λ n1.
    pick (c == backslash) _ _ (simple 92 92 refl refl) (λ n2.
      pick (c == 8) _ _ (simple 8 b'b' refl refl) (λ n3.
        pick (c == 12) _ _ (simple 12 b'f' refl refl) (λ n4.
          pick (c == 10) _ _ (simple 10 b'n' refl refl) (λ n5.
            pick (c == 13) _ _ (simple 13 b'r' refl refl) (λ n6.
              pick (c == 9) _ _ (simple 9 b't' refl refl) (λ n7.
                pick (ltb c 0x20) _ _
                  (λ e.
                    let (b1, run) = quoted_unicode f out b c s (ground arith) in
                    (f, b1, omega arith, run))
                  (λ n8.
                    (suc f, c ∷ b, omega arith, quoted_plain f out b c s (ground arith))))))))))
  where
    simple :
        (k e : ℕ)
        → (e == b'u') ≡ false
        → escape_value e ≡ some k
        → (c == k) ≡ true
        → Steps f out b c (92 ∷ e ∷ []) s
    simple k e ne h same =
        let key : k ≡ c = ground arith in
        subst (λ y. Steps f out b y (92 ∷ e ∷ []) s) key (escaped_step f out b k e s ne h)

    pick :
        (t : Bool) (x y : Bytes)
        → (t ≡ true → Steps f out b c x s)
        → (t ≡ false → Steps f out b c y s)
        → Steps f out b c (if t then x else y) s
    pick true x y h k = h refl
    pick false x y h k = k refl

quoted-escape_all :
    (fuel : ℕ) (out b s t : Bytes)
    → length s < fuel
    → Gives (quoted fuel 34 out (at b (escape_all s ++ (34 ∷ t)))) (out ++ s) t
unfolding escape_all
quoted-escape_all zero out b s t h = absurd (omega arith)
quoted-escape_all (suc f) out b [] t h =
    (34 ∷ b, quoted_end f out b t ∙ ap (λ o. ok o (at (34 ∷ b) t)) (sym (append-nil out)))
quoted-escape_all (suc f) out b (c ∷ s) t h =
    let (g, b1, more, step) = escape_char-Steps f out b c (escape_all s ++ (34 ∷ t)) in
    let (b2, run) = quoted-escape_all g (out ++ (c ∷ [])) b1 s t (omega (arith, h, more)) in
    (
      b2,
      ap (λ y. quoted (suc f) 34 out (at b y))
            (append_assoc (escape_char c) (escape_all s) (34 ∷ t))
          ∙ step
          ∙ run
          ∙ ap (λ o. ok o (at b2 t)) (append_assoc out (c ∷ []) s),
    )

escape_char-long : (d : ℕ) → 1 ≤ length (escape_char d)
unfolding escape_char
escape_char-long d = ground arith

serialize_string-long : (s t : Bytes) → length s ≤ length (escape_all s ++ t)
unfolding escape_all
serialize_string-long [] t = omega arith
serialize_string-long (c ∷ s) t = omega (
  arith,
  ap length (append_assoc (escape_char c) (escape_all s) t),
  length-append (escape_char c) (escape_all s ++ t),
  escape_char-long c,
  serialize_string-long s t,
)

-- The text that the serializer writes for a string is read as this string, with what stands behind it
-- left to read, wherever a quoted string may stand.
pub read_quoted_string-serialize_string :
    (s t b : Bytes) (allow_ml : Bool)
    → Gives (read_quoted_string (at b (serialize_string s ++ t)) allow_ml) s t
unfolding read_quoted_string read_string_body serialize_string
read_quoted_string-serialize_string s t b allow_ml =
    let body =
      quoted-escape_all (suc (length (escape_all s ++ (34 ∷ t)))) [] (34 ∷ b) s t
        (omega (arith, serialize_string-long s (34 ∷ t))) in
    subst (λ u. Gives (quoted (suc (length u)) 34 [] (at (34 ∷ b) u)) s t)
      (sym (append_assoc (escape_all s) (34 ∷ []) t)) body
