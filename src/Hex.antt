-- ===== src/Hex.antt =====
-- src/natives_crypto.cpp: the natives that write bytes as hexadecimal digits and read them back. A
-- `cell_t` or `int` is its bit pattern, below 2 ^ 32. `input` is the plugin's memory from the pointer
-- on. A native gives what it wrote to `output`, from the start, and the cell that it returns.
pub mod RoundTrip
pub mod Errors
mod Tests
use async.Base.{
  ℕ, zero, suc, ◌+◌, ◌-◌, ◌*◌, ◌/◌, ◌%◌, ◌^◌, Bool, true, false, not, ◌&&◌, ◌||◌, List, [], ◌∷◌,
  ◌++◌, Option, none, some, ltb, leb, ◌==◌, if◌then◌else◌, Bytes, length, take,
}
use async.Nodes.{c_str}

-- `<` of two `int`s.
abbrev pub int_less : ℕ → ℕ → Bool
int_less a b = ltb ((a + 2 ^ 31) % 2 ^ 32) ((b + 2 ^ 31) % 2 ^ 32)

abbrev pub minus_one : ℕ
minus_one = 2 ^ 32 - 1

-- `hex_chars[d]`
abbrev pub hex_char : ℕ → ℕ
hex_char d = if ltb d 10 then 48 + d else 87 + d

-- The loop of `HexEncode`, and those over a digest.
unfoldable pub encode_digits : Bytes → Bytes
encode_digits [] = []
encode_digits (b ∷ s) = hex_char (b / 16 % 16) ∷ hex_char (b % 16) ∷ encode_digits s

-- `HexEncode`
unfoldable pub hex_encode : (input : Bytes) → (count maxlen : ℕ) → Bytes × ℕ
unfolding encode_digits
hex_encode input count maxlen =
    if int_less count 1
    then ([], 0)
    else if int_less ((2 ^ 31 - 2) / 2) count
    then ([], 0)
    else if int_less maxlen (count * 2 + 1)
    then ([], 0)
    else (encode_digits (take count input) ++ (0 ∷ []), count * 2)

-- The value of a digit.
abbrev pub digit_value : ℕ → Option ℕ
digit_value c =
    if leb 48 c && leb c 57
    then some (c - 48)
    else if leb 97 c && leb c 102
    then some (c - 97 + 10)
    else if leb 65 c && leb c 70
    then some (c - 65 + 10)
    else none

abbrev pub decode_pair : Option ℕ → Option ℕ → (rest : Bytes × Bool) → Bytes × Bool
decode_pair (some hi) (some lo) rest = ((hi * 16 + lo) ∷ rest.0, rest.1)
decode_pair _ _ rest = ([], false)

-- The loop of `HexDecode` over the pairs of digits: the bytes written, and whether it came to the end.
unfoldable pub decode_digits : Bytes → Bytes × Bool
decode_digits [] = ([], true)
decode_digits (c ∷ []) = ([], true)
decode_digits (c ∷ d ∷ s) = decode_pair (digit_value c) (digit_value d) (decode_digits s)

abbrev pub finish_decode : Bytes × Bool → (decoded_len : ℕ) → Bytes × ℕ
finish_decode (s, true) decoded_len = (s ++ (0 ∷ []), decoded_len)
finish_decode (s, false) decoded_len = (s, minus_one)

-- `HexDecode`
unfoldable pub hex_decode : (input : Bytes) → (maxlen : ℕ) → Bytes × ℕ
unfolding decode_digits c_str
hex_decode input maxlen =
    let input_len = length (c_str input) in
    if input_len == 0
    then ([], 0)
    else if not (input_len % 2 == 0)
    then ([], minus_one)
    else if int_less maxlen (input_len / 2 + 1)
    then ([], minus_one)
    else finish_decode (decode_digits (c_str input)) (input_len / 2)
