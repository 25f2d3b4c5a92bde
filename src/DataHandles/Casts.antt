-- ===== src/DataHandles/Casts.antt =====
-- The casts between `int64_t` and `double` of src/data/data_handle.cpp, on bit patterns.
use async.Base.{
  ℕ, zero, suc, ◌+◌, ◌-◌, ◌*◌, ◌/◌, ◌%◌, ◌^◌, Bool, ltb, leb, ◌==◌, ◌&&◌, ◌||◌, if◌then◌else◌,
}

-- The pattern of the number with this sign and magnitude.
abbrev pub with_sign : (negative : Bool) → ℕ → ℕ
with_sign negative m = if negative then (2 ^ 64 - m) % 2 ^ 64 else m

-- The integer part of a magnitude, from the exponent and the significand.
abbrev pub truncate : (exponent significand : ℕ) → ℕ
truncate exponent significand =
    if ltb exponent 1023
    then 0
    else if leb exponent 1075
    then (2 ^ 52 + significand) / 2 ^ (1075 - exponent)
    else (2 ^ 52 + significand) * 2 ^ (exponent - 1075)

-- `static_cast<int64_t>` of a `double`. Where the integer part does not fit, the behaviour is
-- undefined, and `unfit` stands for what the machine gives.
unfoldable pub float_to_int : (unfit : ℕ → ℕ) → ℕ → ℕ
float_to_int unfit v =
    let negative = leb (2 ^ 63) v in
    let exponent = v / 2 ^ 52 % 2 ^ 11 in
    let magnitude = truncate (if ltb exponent 1086 then exponent else 0) (v % 2 ^ 52) in
    if ltb exponent 1086
    then with_sign negative magnitude
    else if v == 0xc3e0000000000000
    then 2 ^ 63
    else unfit v

-- The number of bits of a magnitude below 2 ^ fuel.
unfoldable pub bit_length : (fuel magnitude : ℕ) → ℕ
bit_length zero m = 0
bit_length (suc fuel) m = let rest = bit_length fuel (m / 2) in if m == 0 then 0 else suc rest

-- m / 2 ^ k, to the nearest, and to the even one of two that are as near.
abbrev pub round_shift : (m k : ℕ) → ℕ
round_shift m k =
    let q = m / 2 ^ k in
    let rest = 2 * (m % 2 ^ k) in
    if ltb (2 ^ k) rest || ((rest == 2 ^ k) && (q % 2 == 1)) then q + 1 else q

-- `static_cast<double>` of a positive magnitude of the given bit length: a significand that rounds up
-- to 2 ^ 53 carries into the exponent.
abbrev pub magnitude_to_float : (length m : ℕ) → ℕ
magnitude_to_float length m =
    let significand =
      if leb length 53 then m * 2 ^ (53 - length) else round_shift m (length - 53) in
    (length + 1021) * 2 ^ 52 + significand

-- `static_cast<double>` of an `int64_t`.
unfoldable pub int_to_float : ℕ → ℕ
unfolding bit_length
int_to_float v =
    let negative = leb (2 ^ 63) v in
    let m = if negative then 2 ^ 64 - v else v in
    if v == 0 then 0 else (if negative then 2 ^ 63 else 0) + magnitude_to_float (bit_length 64 m) m
