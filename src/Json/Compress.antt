-- ===== src/Json/Compress.antt =====
-- What white space between the tokens of a JSON text is, independently of the serializer.
use async.Base.{
  ℕ, ◌<◌, ◌≡◌, refl, ap, sym, ◌∙◌, Bool, true, false, not, ◌&&◌, ◌||◌, [], ◌∷◌, ◌++◌, append_assoc,
  ltb, ◌==◌, if◌then◌else◌, arith, Bool-cases, inl, inr, Bytes, All, ◌/◌, ◌%◌,
}
use async.Json.{quote, backslash, hex_digit, escape_char, escape_all, serialize_string}

pub data Mode : Type 0 where
  outside inside escaped : Mode

abbrev pub is_space : ℕ → Bool
is_space c = (c == 32) || (c == 10) || (c == 13) || (c == 9)

-- A text without the white space outside its strings.
unfoldable pub compress : Mode → Bytes → Bytes
compress outside [] = []
compress outside (c ∷ s) =
    let in_string = compress inside s in
    let go_on = compress outside s in
    if c == quote then c ∷ in_string else if is_space c then go_on else c ∷ go_on
compress inside [] = []
compress inside (c ∷ s) =
    let behind = compress outside s in
    let next = compress escaped s in
    let go_on = compress inside s in
    if c == quote then c ∷ behind else if c == backslash then c ∷ next else c ∷ go_on
compress escaped [] = []
compress escaped (c ∷ s) = c ∷ compress inside s

-- No quote and no white space.
abbrev pub is_plain : ℕ → Bool
is_plain c = not (c == quote) && not (is_space c)

abbrev pub IsPlainText : Bytes → Type 0
IsPlainText = All (λ c. is_plain c ≡ true)

pub compress-plain :
    (t rest : Bytes) → IsPlainText t → compress outside (t ++ rest) ≡ t ++ compress outside rest
unfolding compress
compress-plain [] rest h = refl
compress-plain (c ∷ t) rest h = ground (arith, compress-plain t rest h.1)

pub compress-plain_char :
    (c : ℕ) (rest : Bytes)
    → is_plain c ≡ true
    → compress outside (c ∷ rest) ≡ c ∷ compress outside rest
unfolding compress
compress-plain_char c rest h = ground arith

pub compress-space :
    (c : ℕ) (rest : Bytes) → is_space c ≡ true → compress outside (c ∷ rest) ≡ compress outside rest
unfolding compress
compress-space c rest h = ground arith

compress-pair :
    (x : ℕ) (rest : Bytes)
    → compress inside (backslash ∷ x ∷ rest) ≡ backslash ∷ x ∷ compress inside rest
unfolding compress
compress-pair x rest = refl

compress-inside :
    (c : ℕ) (rest : Bytes)
    → (c == quote) ≡ false
    → (c == backslash) ≡ false
    → compress inside (c ∷ rest) ≡ c ∷ compress inside rest
unfolding compress
compress-inside c rest h k = rw (h, k)

pub hex_digit-quote : (d : ℕ) → d < 16 → (hex_digit d == quote) ≡ false
hex_digit-quote d h = ground arith

pub hex_digit-backslash : (d : ℕ) → d < 16 → (hex_digit d == backslash) ≡ false
hex_digit-backslash d h = ground arith

compress-hex_digit :
    (d : ℕ) (rest : Bytes)
    → d < 16
    → compress inside (hex_digit d ∷ rest) ≡ hex_digit d ∷ compress inside rest
compress-hex_digit d rest h =
    compress-inside (hex_digit d) rest (hex_digit-quote d h) (hex_digit-backslash d h)

compress-unicode :
    (c : ℕ) (rest : Bytes)
    → c < 0x20
    → compress inside
        (backslash ∷ b'u' ∷ b'0' ∷ b'0' ∷ hex_digit (c / 16) ∷ hex_digit (c % 16) ∷ rest)
      ≡ backslash
        ∷ b'u'
        ∷ b'0'
        ∷ b'0'
        ∷ hex_digit (c / 16)
        ∷ hex_digit (c % 16)
        ∷ compress inside rest
compress-unicode c rest h =
    compress-pair b'u' _
    ∙ ap (λ t. backslash ∷ b'u' ∷ t)
        (compress-inside b'0' _ refl refl
          ∙ ap (λ t. b'0' ∷ t)
              (compress-inside b'0' _ refl refl
                ∙ ap (λ t. b'0' ∷ t)
                    (compress-hex_digit (c / 16) _ (omega arith)
                      ∙ ap (λ t. hex_digit (c / 16) ∷ t)
                          (compress-hex_digit (c % 16) rest (omega arith)))))

compress-escape_char :
    (c : ℕ) (rest : Bytes)
    → compress inside (escape_char c ++ rest) ≡ escape_char c ++ compress inside rest
unfolding escape_char
compress-escape_char c rest = elim (Bool-cases (c == quote)) [
  | inl e ↦ rw e (compress-pair quote rest)
  | inr nq ↦ rw nq (elim (Bool-cases (c == backslash)) [
    | inl e ↦ rw e (compress-pair backslash rest)
    | inr nb ↦ rw nb (elim (Bool-cases (c == 8)) [
      | inl e ↦ rw e (compress-pair b'b' rest)
      | inr e ↦ rw e (elim (Bool-cases (c == 12)) [
        | inl e ↦ rw e (compress-pair b'f' rest)
        | inr e ↦ rw e (elim (Bool-cases (c == 10)) [
          | inl e ↦ rw e (compress-pair b'n' rest)
          | inr e ↦ rw e (elim (Bool-cases (c == 13)) [
            | inl e ↦ rw e (compress-pair b'r' rest)
            | inr e ↦ rw e (elim (Bool-cases (c == 9)) [
              | inl e ↦ rw e (compress-pair b't' rest)
              | inr e ↦ rw e (elim (Bool-cases (ltb c 0x20)) [
                | inl e ↦ rw e (compress-unicode c rest (ground arith))
                | inr e ↦ rw e (compress-inside c rest nq nb)
              ])
            ])
          ])
        ])
      ])
    ])
  ])
]

compress-escape_all :
    (s rest : Bytes) → compress inside (escape_all s ++ rest) ≡ escape_all s ++ compress inside rest
unfolding escape_all
compress-escape_all [] rest = refl
compress-escape_all (c ∷ s) rest =
    ap (compress inside) (append_assoc (escape_char c) (escape_all s) rest)
    ∙ compress-escape_char c (escape_all s ++ rest)
    ∙ ap (λ t. escape_char c ++ t) (compress-escape_all s rest)
    ∙ sym (append_assoc (escape_char c) (escape_all s) (compress inside rest))

-- A string passes unchanged.
pub compress-serialize_string :
    (s rest : Bytes)
    → compress outside (serialize_string s ++ rest) ≡ serialize_string s ++ compress outside rest
unfolding serialize_string
compress-serialize_string s rest =
    let body : compress inside (escape_all s ++ (quote ∷ []) ++ rest)
        ≡ escape_all s ++ (quote ∷ []) ++ compress outside rest =
      ap (compress inside) (append_assoc (escape_all s) (quote ∷ []) rest)
      ∙ compress-escape_all s (quote ∷ rest)
      ∙ ap (λ t. escape_all s ++ t) (closing rest)
      ∙ sym (append_assoc (escape_all s) (quote ∷ []) (compress outside rest)) in
    opening (escape_all s ++ (quote ∷ []) ++ rest) ∙ ap (λ t. quote ∷ t) body
  where
    opening : (t : Bytes) → compress outside (quote ∷ t) ≡ quote ∷ compress inside t
    opening t = unfold compress in refl

    closing : (t : Bytes) → compress inside (quote ∷ t) ≡ quote ∷ compress outside t
    closing t = unfold compress in refl
