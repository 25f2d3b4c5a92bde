-- ===== src/Hex/RoundTrip.antt =====
-- Hexadecimal digits read back as the bytes that they were written for.
use async.Base.{
  ℕ, ◌+◌, ◌-◌, ◌*◌, ◌/◌, ◌%◌, ◌^◌, ◌<◌, ◌≡◌, ◌≢◌, refl, ap, ◌∙◌, true, false, not, [], ◌∷◌, ◌++◌,
  some, ◌==◌, if◌then◌else◌, arith, Bytes, length, take, All,
}
use async.Nodes.{c_str}
use async.Hex.{
  int_less, hex_char, encode_digits, hex_encode, digit_value, decode_digits, hex_decode,
}

abbrev pub AreBytes : Bytes → Type 0
AreBytes = All (λ b. b < 256)

digit_value-hex_char : (d : ℕ) → d < 16 → digit_value (hex_char d) ≡ some d
digit_value-hex_char d h = ground arith

hex_char-ne_nul : (d : ℕ) → (hex_char d == 0) ≡ false
hex_char-ne_nul d = ground arith

decode_digits-encode_digits : (s : Bytes) → AreBytes s → decode_digits (encode_digits s) ≡ (s, true)
unfolding decode_digits encode_digits
decode_digits-encode_digits [] h = refl
decode_digits-encode_digits (b ∷ s) h =
    let whole : b / 16 % 16 * 16 + b % 16 ≡ b = omega (arith, h.0) in
    rw
      (
        digit_value-hex_char (b / 16 % 16) (omega arith),
        digit_value-hex_char (b % 16) (omega arith),
        decode_digits-encode_digits s h.1,
      )
      (ap (λ c. (c ∷ s, true)) whole)

c_str-encode_digits : (s t : Bytes) → c_str (encode_digits s ++ (0 ∷ t)) ≡ encode_digits s
unfolding c_str encode_digits
c_str-encode_digits [] t = refl
c_str-encode_digits (b ∷ s) t =
    rw (hex_char-ne_nul (b / 16 % 16), hex_char-ne_nul (b % 16), c_str-encode_digits s t)

length-encode_digits : (s : Bytes) → length (encode_digits s) ≡ length s * 2
unfolding encode_digits
length-encode_digits [] = refl
length-encode_digits (b ∷ s) = omega (arith, length-encode_digits s)

take-length : (s : Bytes) → take (length s) s ≡ s
take-length [] = refl
take-length (b ∷ s) = ap (λ t. b ∷ t) (take-length s)

hex_encode-fits :
    (s : Bytes) (m : ℕ)
    → s ≢ []
    → length s * 2 < m
    → m < 2 ^ 31
    → hex_encode s (length s) m ≡ (encode_digits s ++ (0 ∷ []), length s * 2)
unfolding hex_encode
hex_encode-fits [] m ne h k = absurd (ne refl)
hex_encode-fits (b ∷ s) m ne h k =
    guards (length (b ∷ s))
      (encode_digits (take (length (b ∷ s)) (b ∷ s)) ++ (0 ∷ []), length (b ∷ s) * 2) (omega arith)
      h
    ∙ ap (λ t. (encode_digits t ++ (0 ∷ []), length (b ∷ s) * 2)) (take-length (b ∷ s))
  where
    guards :
        (n : ℕ) (out : Bytes × ℕ)
        → 0 < n
        → n * 2 < m
        → (if int_less n 1
            then ([], 0)
            else if int_less ((2 ^ 31 - 2) / 2) n
            then ([], 0)
            else if int_less m (n * 2 + 1)
            then ([], 0)
            else out)
          ≡ out
    guards n out pos small = ground arith

hex_decode-fits :
    (s : Bytes) (m : ℕ)
    → AreBytes s
    → s ≢ []
    → length s < m
    → m < 2 ^ 31
    → hex_decode (encode_digits s ++ (0 ∷ [])) m ≡ (s ++ (0 ∷ []), length s)
unfolding hex_decode
hex_decode-fits [] m bytes ne h k = absurd (ne refl)
hex_decode-fits (b ∷ s) m bytes ne h k =
    rw
      (
        c_str-encode_digits (b ∷ s) [],
        length-encode_digits (b ∷ s),
        decode_digits-encode_digits (b ∷ s) bytes,
      )
      (guards (length (b ∷ s)) (omega arith) h)
  where
    guards :
        (n : ℕ)
        → 0 < n
        → n < m
        → ◌≡◌ {A = Bytes × ℕ}
            (if n * 2 == 0
              then ([], 0)
              else if not (n * 2 % 2 == 0)
              then ([], 2 ^ 32 - 1)
              else if int_less m (n * 2 / 2 + 1)
              then ([], 2 ^ 32 - 1)
              else ((b ∷ s) ++ (0 ∷ []), n * 2 / 2))
            ((b ∷ s) ++ (0 ∷ []), n)
    guards n pos small = ground arith

-- What `HexEncode` writes for some bytes, `HexDecode` reads back as those bytes with a NUL behind
-- them, and both return the number of characters in front of the NUL, where the buffers have room.
pub hex_decode-hex_encode :
    (s : Bytes) (m k : ℕ)
    → AreBytes s
    → s ≢ []
    → length s * 2 < m
    → m < 2 ^ 31
    → length s < k
    → k < 2 ^ 31
    → ((hex_encode s (length s) m).1 ≡ length s * 2)
      × (hex_decode (hex_encode s (length s) m).0 k ≡ (s ++ (0 ∷ []), length s))
hex_decode-hex_encode s m k bytes ne fits small room low =
    let written = hex_encode-fits s m ne fits small in
    (
      ap (λ (r : Bytes × ℕ). r.1) written,
      ap (λ (r : Bytes × ℕ). hex_decode r.0 k) written ∙ hex_decode-fits s k bytes ne room low,
    )
