-- ===== src/Hjson/Integers.antt =====
-- The integers that the JSON serializer writes, read as numbers.
use async.Base.{
  ℕ, suc, ◌-◌, ◌%◌, ◌^◌, ◌≤◌, ◌<◌, ◌≡◌, refl, subst, Bool, true, false, not, ◌&&◌, ◌||◌, [], ◌∷◌,
  ◌++◌, append-nil, some, ◌>>=◌, ltb, leb, ◌==◌, if◌then◌else◌, Bytes, bytes_eq, length, drop, All,
  arith, Bool-cases, inl, inr, take-length-append,
}
use async.Data.{int}
use async.Json.{decimal, serialize_int}
use async.Hjson.Scan.{count_until, is_nl, is_punctuator, is_quote}
use async.Hjson.Reader.{char_at}
use async.Hjson.Numbers.{
  is_digit, integer_part, fraction_part, exponent_part, at_end, check_number, strtoll,
  try_parse_number, try_parse_keyword_or_number,
}
use async.Hjson.Digits.{
  IsDigits, append-nil_count, count-digits, decimal-IsDigits, decimal-leads, decimal_few,
  decimal_value-digits, drop-all, fold-decimal, is_end, leads, length-decimal,
}

check_digits :
    (s : Bytes) → IsDigits s → 0 < length s → leads s ≡ false → check_number s ≡ some false
unfolding check_number
check_digits [] h pos e = absurd (omega arith)
check_digits (c ∷ s) h pos e =
    let no_sign : (c == b'-') ≡ false = ground (arith, h.0) in
    let ends : drop (count_until (λ d. not (is_digit d)) s) s ≡ [] =
      rw (append-nil_count s h.1) (drop-all s) in
    rw (no_sign, e, h.0, ends) refl

check_minus :
    (s : Bytes)
    → check_number s ≡ some false
    → (char_at 0 s == b'-') ≡ false
    → check_number (b'-' ∷ s) ≡ some false
unfolding check_number
check_minus s h e =
    subst
      (λ t.
        (do
          t1 ← integer_part (if t then drop 1 s else s)
          u ← fraction_part t1
          v ← exponent_part u.0 u.1
          at_end v)
        ≡ some false)
      e h

no_minus : (s r : Bytes) → IsDigits s → 0 < length s → (char_at 0 (s ++ r) == b'-') ≡ false
no_minus [] r h pos = absurd (omega arith)
no_minus (c ∷ s) r h pos = ground (arith, h.0)

and_false : (b : Bool) → (b && false) ≡ false
and_false true = refl
and_false false = refl

abbrev starts_number : Bytes → Bool
starts_number s = (char_at 0 s == b'-') || is_digit (char_at 0 s)

-- A character that ends no value.
abbrev pub is_plain : ℕ → Bool
is_plain c =
    ltb 32 c
    && not (is_nl c)
    && not (is_punctuator c)
    && not (is_quote c)
    && not (c == 35)
    && not (c == 47)

pub plain-is_visible : (c : ℕ) → is_plain c ≡ true → (leb c 32 && ltb 0 c) ≡ false
plain-is_visible c h = ground arith

pub plain-is_punctuator : (c : ℕ) → is_plain c ≡ true → is_punctuator c ≡ false
plain-is_punctuator c h = ground arith

pub plain-is_quote : (c : ℕ) → is_plain c ≡ true → is_quote c ≡ false
plain-is_quote c h = ground arith

abbrev pub IsPlain : Bytes → Type 0
IsPlain = All (λ c. is_plain c ≡ true)

IsDigits-IsPlain : (s : Bytes) → IsDigits s → IsPlain s
IsDigits-IsPlain [] h = tt
IsDigits-IsPlain (c ∷ s) h = (ground (arith, h.0), IsDigits-IsPlain s h.1)

digits-starts : (s : Bytes) → IsDigits s → 0 < length s → starts_number s ≡ true
digits-starts [] h pos = absurd (omega arith)
digits-starts (c ∷ s) h pos = ground (arith, h.0)

-- A text that stands for an integer, whatever stands behind it.
pub record IsNumber (s : Bytes) (v : ℕ) : Type 0 where
  pub long : 0 < length s
  pub short : length s ≤ 20
  pub starts : starts_number s ≡ true
  pub plain : IsPlain s
  pub checked : check_number s ≡ some false
  pub read : (r : Bytes) → is_end r ≡ true → strtoll (s ++ r) ≡ (length s, some v)

digits-IsNumber : (v : ℕ) → v < 2 ^ 63 → IsNumber (decimal 18 v) v
unfolding strtoll
digits-IsNumber v h = record {
  long = length-decimal 18 v;
  short = omega (arith, decimal_few 18 v);
  starts = digits-starts (decimal 18 v) (decimal-IsDigits 18 v) (length-decimal 18 v);
  plain = IsDigits-IsPlain (decimal 18 v) (decimal-IsDigits 18 v);
  checked =
      check_digits (decimal 18 v) (decimal-IsDigits 18 v) (length-decimal 18 v)
        (decimal-leads v (omega arith));
  read = λ r e.
      let small : ltb v (2 ^ 63) ≡ true = ground arith in
      rw
        (
          no_minus (decimal 18 v) r (decimal-IsDigits 18 v) (length-decimal 18 v),
          count-digits (decimal 18 v) r (decimal-IsDigits 18 v) e,
          decimal_value-digits 0 (decimal 18 v) r (decimal-IsDigits 18 v) e,
          fold-decimal 18 v (omega arith),
          small,
        )
        refl;
}

minus-IsNumber : (m : ℕ) → 0 < m → m ≤ 2 ^ 63 → IsNumber (b'-' ∷ decimal 18 m) (2 ^ 64 - m)
unfolding strtoll
minus-IsNumber m pos h = record {
  long = omega arith;
  short = omega (arith, decimal_few 18 m);
  starts = refl;
  plain = (refl, IsDigits-IsPlain (decimal 18 m) (decimal-IsDigits 18 m));
  checked =
      check_minus (decimal 18 m)
        (check_digits (decimal 18 m) (decimal-IsDigits 18 m) (length-decimal 18 m)
          (decimal-leads m (omega arith)))
        (subst (λ u. (char_at 0 u == b'-') ≡ false) (append-nil (decimal 18 m))
          (no_minus (decimal 18 m) [] (decimal-IsDigits 18 m) (length-decimal 18 m)));
  read = λ r e.
      let small : leb m (2 ^ 63) ≡ true = ground arith in
      let wrap : (2 ^ 64 - m) % 2 ^ 64 ≡ 2 ^ 64 - m = omega arith in
      rw
        (
          count-digits (decimal 18 m) r (decimal-IsDigits 18 m) e,
          decimal_value-digits 0 (decimal 18 m) r (decimal-IsDigits 18 m) e,
          fold-decimal 18 m (omega arith),
          small,
          wrap,
        )
        refl;
}

-- Every 64-bit integer is written as such a text.
pub serialize_int-IsNumber : (v : ℕ) → v < 2 ^ 64 → IsNumber (serialize_int v) v
unfolding serialize_int
serialize_int-IsNumber v h = elim (Bool-cases (ltb v (2 ^ 63))) [
  | inl e ↦ rw e (digits-IsNumber v (ground arith))
  | inr e ↦ rw e (
      subst (λ w. IsNumber (b'-' ∷ decimal 18 (2 ^ 64 - v)) w) (omega arith)
        (minus-IsNumber (2 ^ 64 - v) (omega arith) (ground arith)))
]

module _ (strtod : Bytes → ℕ × ℕ) where
  try_number :
      (s r : Bytes) (v : ℕ)
      → IsNumber s v
      → is_end r ≡ true
      → try_parse_number strtod (s ++ r) (length s) ≡ some (int v)
  unfolding try_parse_number
  try_number s r v h e =
      let same : (length s == length s) ≡ true = ground arith in
      rw (take-length-append s r, h.checked, h.read r e, same) refl

  pub try_integer :
      (s r : Bytes) (v : ℕ)
      → IsNumber s v
      → is_end r ≡ true
      → try_parse_keyword_or_number strtod (s ++ r) (length s) ≡ some (int v)
  unfolding try_parse_keyword_or_number bytes_eq
  try_integer [] r v h e = absurd (ground (arith, h.starts))
  try_integer (c ∷ s) r v h e =
      let found = try_number (c ∷ s) r v h e in
      let first = h.starts in
      let no_t : (c == b't') ≡ false = ground arith in
      let no_f : (c == b'f') ≡ false = ground arith in
      let no_n : (c == b'n') ≡ false = ground arith in
      let some_text : (suc (length s) == 0) ≡ false = ground arith in
      rw
        (
          no_t,
          no_f,
          no_n,
          first,
          found,
          some_text,
          and_false (suc (length s) == 4),
          and_false (suc (length s) == 5),
        )
        refl
