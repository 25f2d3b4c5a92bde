-- ===== src/Hex/Errors.antt =====
-- When `HexDecode` fails, and what it writes then.
use async.Base.{
  ℕ, suc, ◌+◌, ◌/◌, ◌%◌, ◌^◌, ◌≤◌, ◌<◌, ◌≡◌, refl, ap, ◌∙◌, Bool, true, false, not, ◌&&◌, ◌||◌, [],
  ◌∷◌, Option, none, some, ltb, ◌==◌, arith, Bytes, length, Bool-cases, inl, inr, length-append,
}
use async.Base.Tables.{is_some}
use async.Nodes.{c_str}
use async.Hex.{
  int_less, digit_value, decode_pair, decode_digits, finish_decode, hex_decode, minus_one,
}

-- Every character is a digit of either case.
abbrev pub is_hex : Bytes → Bool
is_hex [] = true
is_hex (c ∷ s) = is_some (digit_value c) && is_hex s

decode_digits-ends : (s : Bytes) → length s % 2 ≡ 0 → (decode_digits s).1 ≡ is_hex s
unfolding decode_digits
decode_digits-ends [] h = refl
decode_digits-ends (c ∷ []) h = cc h
decode_digits-ends (c ∷ d ∷ s) h =
    pairs (digit_value c) (digit_value d) (decode_digits s)
      (decode_digits-ends s (omega (arith, h)))
  where
    pairs :
        (x y : Option ℕ) (rest : Bytes × Bool)
        → rest.1 ≡ is_hex s
        → (decode_pair x y rest).1 ≡ (is_some x && (is_some y && is_hex s))
    pairs none none rest e = refl
    pairs none (some y) rest e = refl
    pairs (some x) none rest e = refl
    pairs (some x) (some y) rest e = e

length-decode_digits : (s : Bytes) → length (decode_digits s).0 ≤ length s / 2
unfolding decode_digits
length-decode_digits [] = omega arith
length-decode_digits (c ∷ []) = omega arith
length-decode_digits (c ∷ d ∷ s) =
    pairs (digit_value c) (digit_value d) (decode_digits s) (length-decode_digits s)
  where
    pairs :
        (x y : Option ℕ) (rest : Bytes × Bool)
        → length rest.0 ≤ length s / 2
        → length (decode_pair x y rest).0 ≤ suc (suc (length s)) / 2
    pairs none none rest e = omega arith
    pairs none (some y) rest e = omega arith
    pairs (some x) none rest e = omega arith
    pairs (some x) (some y) rest e = omega (arith, e)

finished : (r : Bytes × Bool) (n : ℕ) → n < 2 ^ 31 → ((finish_decode r n).1 == minus_one) ≡ not r.1
finished (s, true) n h = ground arith
finished (s, false) n h = refl

finished-length : (r : Bytes × Bool) (n : ℕ) → length r.0 ≤ n → length (finish_decode r n).0 ≤ n + 1
finished-length (s, true) n h = omega (arith, length-append s (0 ∷ []), h)
finished-length (s, false) n h = omega (arith, h)

-- `HexDecode` returns -1 exactly for a text that is not empty and has an odd number of characters, is
-- too long for the buffer, or holds a character that is no digit; and it never writes more than the
-- buffer holds. `maxlen` is not negative, and the text is shorter than 2 ^ 31.
pub hex_decode_lem :
    (input : Bytes) (maxlen : ℕ)
    → length (c_str input) < 2 ^ 31
    → maxlen < 2 ^ 31
    → (((hex_decode input maxlen).1 == minus_one) ≡ (
        not (length (c_str input) == 0)
        && (not (length (c_str input) % 2 == 0)
            || (ltb maxlen (length (c_str input) / 2 + 1) || not (is_hex (c_str input))))))
      × (length (hex_decode input maxlen).0 ≤ maxlen)
unfolding hex_decode
hex_decode_lem input maxlen h k = elim (Bool-cases (length (c_str input) == 0)) [
  | inl e ↦ rw e (refl, omega arith)
  | inr e ↦ rw e (elim (Bool-cases (length (c_str input) % 2 == 0)) [
    | inr odd ↦ rw odd (refl, omega arith)
    | inl even ↦ rw even (elim (Bool-cases (ltb maxlen (length (c_str input) / 2 + 1))) [
      | inl short ↦ rw (short, signed short) (refl, omega arith)
      | inr room ↦
          rw (room, signed room)
            (
              finished (decode_digits (c_str input)) (length (c_str input) / 2) (omega (arith, h))
                  ∙ ap not (decode_digits-ends (c_str input) (ground arith)),
              fits
                  (length
                    (finish_decode (decode_digits (c_str input)) (length (c_str input) / 2)).0)
                  room
                  (finished-length (decode_digits (c_str input)) (length (c_str input) / 2)
                    (length-decode_digits (c_str input))),
            )
    ])
  ])
]
  where
    signed :
        {b : Bool}
        → ltb maxlen (length (c_str input) / 2 + 1) ≡ b
        → int_less maxlen (length (c_str input) / 2 + 1) ≡ b
    signed e = ground arith

    fits :
        (n : ℕ)
        → ltb maxlen (length (c_str input) / 2 + 1) ≡ false
        → n ≤ length (c_str input) / 2 + 1
        → n ≤ maxlen
    fits n room small = ground arith
