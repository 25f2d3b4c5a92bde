-- ===== src/Json/Plain.antt =====
-- The texts of the numbers hold no white space and no quote.
use async.Base.{
  ℕ, zero, suc, ◌+◌, ◌-◌, ◌/◌, ◌%◌, ◌^◌, ◌≡◌, refl, Bool, true, false, not, ◌&&◌, [], ◌∷◌, ◌++◌,
  ltb, ◌==◌, if◌then◌else◌, arith, Bool-cases, inl, inr, Bytes,
}
use async.Data.{DataNode, null, bool, int, float, string, array, object, int_map, binary}
use async.Json.{
  decimal, serialize_int, null_text, bool_text, is_exp, drop_first_plus, drop_plus, has_dot,
  has_exp, finish_float, shortest, serialize_float, serialize_leaf, serialize_string,
}
use async.Json.Compress.{outside, compress, IsPlainText, compress-plain, compress-serialize_string}

-- The first text is the second one with white space between its tokens.
pub record Squeezes (s t : Bytes) : Type 0 where
  pub before : (rest : Bytes) → compress outside (s ++ rest) ≡ t ++ compress outside rest

pub Squeezes-plain : (s : Bytes) → IsPlainText s → Squeezes s s
Squeezes-plain s h = record { before = λ rest. compress-plain s rest h }

pub Squeezes-string : (s : Bytes) → Squeezes (serialize_string s) (serialize_string s)
Squeezes-string s = record { before = compress-serialize_string s }

IsPlainText-when :
    (b : Bool) (s t : Bytes) → IsPlainText s → IsPlainText t → IsPlainText (if b then s else t)
IsPlainText-when true s t h k = h
IsPlainText-when false s t h k = k

IsPlainText-append : (s t : Bytes) → IsPlainText s → IsPlainText t → IsPlainText (s ++ t)
IsPlainText-append [] t h k = k
IsPlainText-append (c ∷ s) t h k = (h.0, IsPlainText-append s t h.1 k)

IsPlainText-decimal : (fuel n : ℕ) → IsPlainText (decimal fuel n)
unfolding decimal
IsPlainText-decimal zero n = (ground arith, tt)
IsPlainText-decimal (suc fuel) n = elim (Bool-cases (ltb n 10)) [
  | inl e ↦ rw e (ground arith, tt)
  | inr e ↦ rw e (
      IsPlainText-append (decimal fuel (n / 10)) _ (IsPlainText-decimal fuel (n / 10))
        (ground arith, tt))
]

IsPlainText-serialize_int : (v : ℕ) → IsPlainText (serialize_int v)
unfolding serialize_int
IsPlainText-serialize_int v = elim (Bool-cases (ltb v (2 ^ 63))) [
  | inl e ↦ rw e (IsPlainText-decimal 18 v)
  | inr e ↦ rw e (refl, IsPlainText-decimal 18 (2 ^ 64 - v))
]

IsPlainText-drop_first_plus : (s : Bytes) → IsPlainText s → IsPlainText (drop_first_plus s)
IsPlainText-drop_first_plus [] h = tt
IsPlainText-drop_first_plus (c ∷ s) h = elim (Bool-cases (c == b'+')) [
  | inl e ↦ rw e h.1
  | inr e ↦ rw e h
]

IsPlainText-drop_plus : (s : Bytes) → IsPlainText s → IsPlainText (drop_plus s)
unfolding drop_plus
IsPlainText-drop_plus [] h = tt
IsPlainText-drop_plus (c ∷ s) h = elim (Bool-cases (is_exp c)) [
  | inl e ↦ rw e (h.0, IsPlainText-drop_first_plus s h.1)
  | inr e ↦ rw e (h.0, IsPlainText-drop_plus s h.1)
]

IsPlainText-finish_float : (s : Bytes) → IsPlainText s → IsPlainText (finish_float s)
unfolding finish_float
IsPlainText-finish_float s h =
    IsPlainText-when (not (has_dot s) && not (has_exp s)) (drop_plus s ++ (b'.' ∷ b'0' ∷ []))
      (drop_plus s)
      (IsPlainText-append (drop_plus s) _ (IsPlainText-drop_plus s h) (refl, (refl, tt)))
      (IsPlainText-drop_plus s h)

module _ (print_g : ℕ → ℕ → Bytes) (strtod : Bytes → ℕ)
    (plain_g : (p v : ℕ) → IsPlainText (print_g p v)) where
  IsPlainText-shortest :
      (more precision v : ℕ) → IsPlainText (shortest print_g strtod more precision v)
  unfolding shortest
  IsPlainText-shortest zero precision v = plain_g precision v
  IsPlainText-shortest (suc more) precision v =
      IsPlainText-when _ (print_g precision v) (shortest print_g strtod more (precision + 1) v)
        (plain_g precision v) (IsPlainText-shortest more (precision + 1) v)

  IsPlainText-serialize_float : (v : ℕ) → IsPlainText (serialize_float print_g strtod v)
  unfolding serialize_float
  IsPlainText-serialize_float v =
      IsPlainText-when (v / 2 ^ 52 % 2 ^ 11 == 2047) null_text _ (refl, (refl, (refl, (refl, tt))))
        (IsPlainText-finish_float _ (IsPlainText-shortest 16 1 v))

  -- The text of a leaf passes unchanged.
  pub Squeezes-serialize_leaf :
      (v : DataNode) → Squeezes (serialize_leaf print_g strtod v) (serialize_leaf print_g strtod v)
  unfolding serialize_leaf
  Squeezes-serialize_leaf null = Squeezes-plain null_text (refl, (refl, (refl, (refl, tt))))
  Squeezes-serialize_leaf (bool true) =
      Squeezes-plain (bool_text true) (refl, (refl, (refl, (refl, tt))))
  Squeezes-serialize_leaf (bool false) =
      Squeezes-plain (bool_text false) (refl, (refl, (refl, (refl, (refl, tt)))))
  Squeezes-serialize_leaf (int v) = Squeezes-plain (serialize_int v) (IsPlainText-serialize_int v)
  Squeezes-serialize_leaf (float v) =
      Squeezes-plain (serialize_float print_g strtod v) (IsPlainText-serialize_float v)
  Squeezes-serialize_leaf (string s) = Squeezes-string s
  Squeezes-serialize_leaf (array xs) = record { before = λ rest. refl }
  Squeezes-serialize_leaf (object fs) = record { before = λ rest. refl }
  Squeezes-serialize_leaf (int_map es) = Squeezes-plain null_text (refl, (refl, (refl, (refl, tt))))
  Squeezes-serialize_leaf (binary b) = Squeezes-plain null_text (refl, (refl, (refl, (refl, tt))))
