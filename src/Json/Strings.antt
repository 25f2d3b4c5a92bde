-- ===== src/Json/Strings.antt =====
-- A reader of JSON strings, written from RFC 8259, reads back what `serialize_string` writes.
use async.Base.{
  ℕ, zero, suc, ◌+◌, ◌-◌, ◌*◌, ◌/◌, ◌%◌, ◌≤◌, ◌<◌, ◌≡◌, refl, ap, ◌∙◌, false, ◌&&◌, [], ◌∷◌, ◌++◌,
  append_assoc, Option, none, some, ltb, leb, ◌==◌, if◌then◌else◌, arith, Bool-cases, inl, inr,
  Bytes, length, length-append,
}
use async.Json.{quote, backslash, hex_digit, escape_char, escape_all, serialize_string}

-- The value of a hexadecimal digit, 16 for any other character.
abbrev pub hex_value : ℕ → ℕ
hex_value c =
    if leb 48 c && leb c 57
    then c - 48
    else if leb 97 c && leb c 102
    then c - 87
    else if leb 65 c && leb c 70
    then c - 55
    else 16

-- "\u" and four digits, of a character of one byte.
abbrev pub read_unicode : Bytes → Option (ℕ × Bytes)
read_unicode (i ∷ j ∷ k ∷ l ∷ t) =
    if (hex_value i == 0) && (hex_value j == 0) && ltb (hex_value k) 8 && ltb (hex_value l) 16
    then some (hex_value k * 16 + hex_value l, t)
    else none
read_unicode _ = none

-- What follows a backslash.
abbrev pub read_escape : Bytes → Option (ℕ × Bytes)
read_escape [] = none
read_escape (c ∷ t) =
    if c == quote
    then some (quote, t)
    else if c == backslash
    then some (backslash, t)
    else if c == b'/'
    then some (b'/', t)
    else if c == b'b'
    then some (8, t)
    else if c == b'f'
    then some (12, t)
    else if c == b'n'
    then some (10, t)
    else if c == b'r'
    then some (13, t)
    else if c == b't'
    then some (9, t)
    else if c == b'u'
    then read_unicode t
    else none

abbrev pub push : ℕ → Option (Bytes × Bytes) → Option (Bytes × Bytes)
push c none = none
push c (some (s, t)) = some (c ∷ s, t)

abbrev pub push_escape :
    (Bytes → Option (Bytes × Bytes)) → Option (ℕ × Bytes) → Option (Bytes × Bytes)
push_escape go none = none
push_escape go (some (c, t)) = push c (go t)

-- The characters up to the closing quote, and the text behind it. A control character has to be
-- escaped.
unfoldable pub read_chars : (fuel : ℕ) → Bytes → Option (Bytes × Bytes)
read_chars zero t = none
read_chars (suc fuel) [] = none
read_chars (suc fuel) (c ∷ t) =
    let after_escape = push_escape (read_chars fuel) (read_escape t) in
    let after_char = push c (read_chars fuel t) in
    if c == quote
    then some ([], t)
    else if c == backslash
    then after_escape
    else if ltb c 0x20
    then none
    else after_char

abbrev pub read_string : Bytes → Option (Bytes × Bytes)
read_string [] = none
read_string (c ∷ t) = if c == quote then read_chars (length t) t else none

hex_value-hex_digit : (d : ℕ) → d < 16 → hex_value (hex_digit d) ≡ d
hex_value-hex_digit d h = ground arith

read_unicode-hex :
    (c : ℕ) (t : Bytes)
    → c < 0x20
    → read_unicode (b'0' ∷ b'0' ∷ hex_digit (c / 16) ∷ hex_digit (c % 16) ∷ t) ≡ some (c, t)
read_unicode-hex c t h =
    rw (hex_value-hex_digit (c / 16) (omega arith), hex_value-hex_digit (c % 16) (omega arith))
      (ground arith)

read_chars-plain :
    (fuel c : ℕ) (t : Bytes)
    → (c == quote) ≡ false
    → (c == backslash) ≡ false
    → ltb c 0x20 ≡ false
    → read_chars (suc fuel) (c ∷ t) ≡ push c (read_chars fuel t)
unfolding read_chars
read_chars-plain fuel c t q b l = rw (q, b, l)

read_chars-escape :
    (fuel : ℕ) (t : Bytes)
    → read_chars (suc fuel) (backslash ∷ t) ≡ push_escape (read_chars fuel) (read_escape t)
unfolding read_chars
read_chars-escape fuel t = refl

-- Any character reads back from what is written for it.
read_chars-escape_char :
    (fuel c : ℕ) (t : Bytes)
    → read_chars (suc fuel) (escape_char c ++ t) ≡ push c (read_chars fuel t)
unfolding escape_char
read_chars-escape_char fuel c t = elim (Bool-cases (c == quote)) [
  | inl e ↦
      let same : c ≡ quote = ground arith in rw e (rw same (read_chars-escape fuel (quote ∷ t)))
  | inr nq ↦ rw nq (elim (Bool-cases (c == backslash)) [
    | inl e ↦
        let same : c ≡ backslash = ground arith in
        rw e (rw same (read_chars-escape fuel (backslash ∷ t)))
    | inr nb ↦ rw nb (elim (Bool-cases (c == 8)) [
      | inl e ↦
          let same : c ≡ 8 = ground arith in rw e (rw same (read_chars-escape fuel (b'b' ∷ t)))
      | inr e ↦ rw e (elim (Bool-cases (c == 12)) [
        | inl e ↦
            let same : c ≡ 12 = ground arith in rw e (rw same (read_chars-escape fuel (b'f' ∷ t)))
        | inr e ↦ rw e (elim (Bool-cases (c == 10)) [
          | inl e ↦
              let same : c ≡ 10 = ground arith in rw e (rw same (read_chars-escape fuel (b'n' ∷ t)))
          | inr e ↦ rw e (elim (Bool-cases (c == 13)) [
            | inl e ↦
                let same : c ≡ 13 = ground arith in
                rw e (rw same (read_chars-escape fuel (b'r' ∷ t)))
            | inr e ↦ rw e (elim (Bool-cases (c == 9)) [
              | inl e ↦
                  let same : c ≡ 9 = ground arith in
                  rw e (rw same (read_chars-escape fuel (b't' ∷ t)))
              | inr e ↦ rw e (elim (Bool-cases (ltb c 0x20)) [
                | inl e ↦ rw e (
                    read_chars-escape fuel _
                    ∙ ap (push_escape (read_chars fuel)) (read_unicode-hex c t (ground arith)))
                | inr l ↦ rw l (read_chars-plain fuel c t nq nb l)
              ])
            ])
          ])
        ])
      ])
    ])
  ])
]

read_chars-quote : (fuel : ℕ) (t : Bytes) → read_chars (suc fuel) (quote ∷ t) ≡ some ([], t)
unfolding read_chars
read_chars-quote fuel t = refl

read_chars-escape_all :
    (fuel : ℕ) (s t : Bytes)
    → length s < fuel
    → read_chars fuel (escape_all s ++ (quote ∷ t)) ≡ some (s, t)
unfolding escape_all
read_chars-escape_all zero s t h = absurd (omega arith)
read_chars-escape_all (suc fuel) [] t h = read_chars-quote fuel t
read_chars-escape_all (suc fuel) (c ∷ s) t h =
    ap (read_chars (suc fuel)) (append_assoc (escape_char c) (escape_all s) (quote ∷ t))
    ∙ read_chars-escape_char fuel c (escape_all s ++ (quote ∷ t))
    ∙ ap (push c) (read_chars-escape_all fuel s t (omega arith))

length-escape_char : (c : ℕ) → 1 ≤ length (escape_char c)
unfolding escape_char
length-escape_char c = ground arith

length-escape_all : (s : Bytes) → length s ≤ length (escape_all s)
unfolding escape_all
length-escape_all [] = omega arith
length-escape_all (c ∷ s) =
    omega (
      arith,
      length-append (escape_char c) (escape_all s),
      length-escape_char c,
      length-escape_all s,
    )

-- A JSON reader gets back any string of bytes from its text, and the text behind it.
pub read_string-serialize_string :
    (s t : Bytes) → read_string (serialize_string s ++ t) ≡ some (s, t)
unfolding serialize_string
read_string-serialize_string s t =
    let regrouped = append_assoc (escape_all s) (quote ∷ []) t in
    let long_enough : length s < length (escape_all s ++ (quote ∷ t)) =
      omega (arith, length-append (escape_all s) (quote ∷ t), length-escape_all s) in
    rw regrouped (read_chars-escape_all (length (escape_all s ++ (quote ∷ t))) s t long_enough)
