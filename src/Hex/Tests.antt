-- ===== src/Hex/Tests.antt =====
-- Runs of the natives, and the theorems at concrete texts.
use async.Base.{
  ◌/◌, ◌%◌, ◌+◌, ◌≤◌, ◌≡◌, refl, not, ◌&&◌, ◌||◌, [], ◌∷◌, ◌++◌, ltb, ◌==◌, arith, Bytes, length,
}
use async.Nodes.{c_str}
use async.Hex.{hex_encode, hex_decode, encode_digits, decode_digits, minus_one}
use async.Hex.RoundTrip.{hex_decode-hex_encode}
use async.Hex.Errors.{is_hex, hex_decode_lem}

abbrev some_bytes : Bytes
some_bytes = 0 ∷ 0xab ∷ 255 ∷ []

encoded : hex_encode some_bytes 3 7 ≡ (b'0' ∷ b'0' ∷ b'a' ∷ b'b' ∷ b'f' ∷ b'f' ∷ 0 ∷ [], 6)
unfolding hex_encode encode_digits
encoded = refl

no_room : hex_encode some_bytes 3 6 ≡ ([], 0)
unfolding hex_encode
no_room = refl

-- The digits in front of a wrong one are written.
wrong_digit : hex_decode (b'A' ∷ b'B' ∷ b'0' ∷ b'x' ∷ 0 ∷ []) 9 ≡ (0xab ∷ [], minus_one)
unfolding hex_decode decode_digits c_str
wrong_digit = refl

hex_decode-hex_encode_example :
    ((hex_encode some_bytes 3 7).1 ≡ 6)
    × (hex_decode (hex_encode some_bytes 3 7).0 4 ≡ (some_bytes ++ (0 ∷ []), 3))
hex_decode-hex_encode_example =
    hex_decode-hex_encode some_bytes 7 4 (omega arith, (omega arith, (omega arith, tt))) (λ e. cc e)
      (omega arith) (omega arith) (omega arith) (omega arith)

abbrev odd_text : Bytes
odd_text = b'a' ∷ b'b' ∷ b'c' ∷ 0 ∷ []

hex_decode_example :
    (((hex_decode odd_text 8).1 == minus_one) ≡ (
      not (length (c_str odd_text) == 0)
      && (not (length (c_str odd_text) % 2 == 0)
          || (ltb 8 (length (c_str odd_text) / 2 + 1) || not (is_hex (c_str odd_text))))))
    × (length (hex_decode odd_text 8).0 ≤ 8)
unfolding c_str
hex_decode_example = hex_decode_lem odd_text 8 (omega arith) (omega arith)
