-- ===== src/Hjson/Digits.antt =====
-- The digits that the JSON serializer writes, and their value.
use async.Base.{
  ℕ, zero, suc, ◌+◌, ◌-◌, ◌*◌, ◌/◌, ◌%◌, ◌≤◌, ◌<◌, ◌≡◌, refl, ap, ◌∙◌, Bool, true, false, not, ◌&&◌,
  ◌||◌, [], ◌∷◌, ◌++◌, ltb, ◌==◌, Bytes, length, drop, All, arith, Bool-cases, inl, inr,
  length-append,
}
use async.Json.{decimal}
use async.Hjson.Scan.{count_until}
use async.Hjson.Reader.{char_at}
use async.Hjson.Numbers.{is_digit, decimal_value}

-- What may stand behind a value inside a container, and the end of the text.
abbrev pub is_end : Bytes → Bool
is_end [] = true
is_end (c ∷ s) = (c == b',') || ((c == b'}') || (c == b']'))

abbrev pub IsDigits : Bytes → Type 0
IsDigits = All (λ c. is_digit c ≡ true)

IsDigits-snoc : (s : Bytes) (c : ℕ) → IsDigits s → is_digit c ≡ true → IsDigits (s ++ (c ∷ []))
IsDigits-snoc [] c h k = (k, tt)
IsDigits-snoc (d ∷ s) c h k = (h.0, IsDigits-snoc s c h.1 k)

pub decimal-IsDigits : (fuel n : ℕ) → IsDigits (decimal fuel n)
unfolding decimal
decimal-IsDigits zero n = (ground arith, tt)
decimal-IsDigits (suc fuel) n = elim (Bool-cases (ltb n 10)) [
  | inl e ↦ rw e (ground arith, tt)
  | inr e ↦ rw e (
      IsDigits-snoc (decimal fuel (n / 10)) (48 + n % 10) (decimal-IsDigits fuel (n / 10))
        (ground arith))
]

-- The value of digits.
abbrev fold : ℕ → Bytes → ℕ
fold acc [] = acc
fold acc (c ∷ s) = fold (acc * 10 + (c - 48)) s

fold-snoc : (acc : ℕ) (s : Bytes) (c : ℕ) → fold acc (s ++ (c ∷ [])) ≡ fold acc s * 10 + (c - 48)
fold-snoc acc [] c = refl
fold-snoc acc (d ∷ s) c = fold-snoc (acc * 10 + (d - 48)) s c

-- Ten to the power of the number of digits.
abbrev bound : ℕ → ℕ
bound zero = 10
bound (suc k) = bound k * 10

pub fold-decimal : (fuel n : ℕ) → n < bound fuel → fold 0 (decimal fuel n) ≡ n
unfolding decimal
fold-decimal zero n h = omega arith
fold-decimal (suc fuel) n h = elim (Bool-cases (ltb n 10)) [
  | inl e ↦ rw e (omega arith)
  | inr e ↦ rw e (
      fold-snoc 0 (decimal fuel (n / 10)) (48 + n % 10)
      ∙ omega (arith, fold-decimal fuel (n / 10) (omega arith)))
]

-- No zero stands in front of other digits.
char_at-snoc : (s : Bytes) (c : ℕ) → 0 < length s → char_at 0 (s ++ (c ∷ [])) ≡ char_at 0 s
char_at-snoc [] c h = absurd (omega arith)
char_at-snoc (d ∷ s) c h = refl

pub length-decimal : (fuel n : ℕ) → 0 < length (decimal fuel n)
unfolding decimal
length-decimal zero n = omega arith
length-decimal (suc fuel) n = elim (Bool-cases (ltb n 10)) [
  | inl e ↦ rw e (omega arith)
  | inr e ↦ rw e (omega (arith, length-append (decimal fuel (n / 10)) ((48 + n % 10) ∷ [])))
]

pub decimal_few : (fuel n : ℕ) → length (decimal fuel n) ≤ suc fuel
unfolding decimal
decimal_few zero n = omega arith
decimal_few (suc fuel) n = elim (Bool-cases (ltb n 10)) [
  | inl e ↦ rw e (omega arith)
  | inr e ↦ rw e (
      omega (
        arith,
        decimal_few fuel (n / 10),
        length-append (decimal fuel (n / 10)) ((48 + n % 10) ∷ []),
      ))
]

first_digit : (fuel n : ℕ) → n < bound fuel → 0 < n → (char_at 0 (decimal fuel n) == 48) ≡ false
unfolding decimal
first_digit zero n h pos = ground arith
first_digit (suc fuel) n h pos = elim (Bool-cases (ltb n 10)) [
  | inl e ↦ rw e (ground arith)
  | inr e ↦
      rw (e, char_at-snoc (decimal fuel (n / 10)) (48 + n % 10) (length-decimal fuel (n / 10)))
        (first_digit fuel (n / 10) (omega arith) (ground arith))
]

abbrev pub leads : Bytes → Bool
leads s = (char_at 0 s == 48) && is_digit (char_at 1 s)

pub decimal-leads : (n : ℕ) → n < bound 18 → leads (decimal 18 n) ≡ false
unfolding decimal
decimal-leads zero h = refl
decimal-leads (suc n) h = rw (first_digit 18 (suc n) h (omega arith)) refl

-- Digits are passed as a whole.
pub count-digits :
    (s r : Bytes)
    → IsDigits s
    → is_end r ≡ true
    → count_until (λ c. not (is_digit c)) (s ++ r) ≡ length s
unfolding count_until
count-digits [] [] h e = refl
count-digits [] (c ∷ r) h e = ground arith
count-digits (d ∷ s) r h e = rw h.0 (ap suc (count-digits s r h.1 e))

pub drop-all : (s : Bytes) → drop (length s) s ≡ []
drop-all [] = refl
drop-all (c ∷ s) = drop-all s

pub append-nil_count : (s : Bytes) → IsDigits s → count_until (λ c. not (is_digit c)) s ≡ length s
unfolding count_until
append-nil_count [] h = refl
append-nil_count (d ∷ s) h = rw h.0 (ap suc (append-nil_count s h.1))

pub decimal_value-digits :
    (acc : ℕ) (s r : Bytes) → IsDigits s → is_end r ≡ true → decimal_value acc (s ++ r) ≡ fold acc s
unfolding decimal_value
decimal_value-digits acc [] [] h e = refl
decimal_value-digits acc [] (c ∷ r) h e = ground arith
decimal_value-digits acc (d ∷ s) r h e =
    rw h.0 (decimal_value-digits (acc * 10 + (d - 48)) s r h.1 e)
