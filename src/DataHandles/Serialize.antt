-- ===== src/DataHandles/Serialize.antt =====
-- src/data/data_handle.cpp: the JSON text of a handle, as a string and in the caller's buffer.
use async.Base.{
  ℕ, zero, suc, refl, ap, sym, subst, ◌-◌, ◌≤◌, ◌≡◌, Bool, false, [], ◌∷◌, ◌++◌, Option, none, some,
  ltb, ◌==◌, if◌then◌else◌, arith, Bool-cases, inl, inr, Bytes, length, take, length-append,
}
use async.Nodes.{Node}
use async.Json.{data_serialize_json}

-- What `memcpy` and the final NUL write for a text that is not empty-handed, and what is returned.
abbrev pub copy_out : (maxlen : ℕ) → Bytes → Bytes × ℕ
copy_out maxlen s =
    let copy_len = if ltb (length s) (maxlen - 1) then length s else maxlen - 1 in
    (take copy_len s ++ (0 ∷ []), copy_len)

module _ (print_g : ℕ → ℕ → Bytes) (strtod : Bytes → ℕ) where
  -- `Serialize`: the bytes written to `buf`, and the count that is returned.
  unfoldable pub serialize : (maxlen : ℕ) → (pretty : Bool) → Option Node → Bytes × ℕ
  serialize maxlen pretty none = ([], 0)
  serialize maxlen pretty (some n) =
      if maxlen == 0
      then ([], 0)
      else copy_out maxlen (data_serialize_json print_g strtod n.value pretty)

  abbrev pub serialize_to_string : (pretty : Bool) → Option Node → Bytes
  serialize_to_string pretty none = []
  serialize_to_string pretty (some n) = data_serialize_json print_g strtod n.value pretty

-- What is expected in a buffer of some size: as much of the text as fits in front of a NUL.
abbrev pub in_buffer : (maxlen : ℕ) → Option Bytes → Bytes
in_buffer zero text = []
in_buffer (suc room) none = []
in_buffer (suc room) (some text) = take room text ++ (0 ∷ [])

abbrev pub text_of : (Node → Bytes) → Option Node → Option Bytes
text_of f none = none
text_of f (some n) = some (f n)

take_nothing : (n : ℕ) → take {A = ℕ} n [] ≡ []
take_nothing zero = refl
take_nothing (suc n) = refl

take-short : (n : ℕ) (s : Bytes) → length s ≤ n → take n s ≡ take (length s) s
take-short n [] h = take_nothing n
take-short zero (c ∷ s) h = absurd (omega arith)
take-short (suc n) (c ∷ s) h = ap (λ t. c ∷ t) (take-short n s (omega arith))

copy_out_lem :
    (room : ℕ) (s : Bytes)
    → ((copy_out (suc room) s).0 ≡ take room s ++ (0 ∷ []))
      × ((copy_out (suc room) s).1 ≡ (if ltb (length s) (suc room) then length s else room))
copy_out_lem room s =
    let back : suc room - 1 ≡ room = omega arith in
    rw back (elim (Bool-cases (ltb (length s) room)) [
      | inl e ↦
          rw e (ap (λ t. t ++ (0 ∷ [])) (sym (take-short room s (ground arith))), ground arith)
      | inr e ↦ rw e (refl, ground arith)
    ])

take_fits : (n : ℕ) (s : Bytes) → length (take n s) ≤ n
take_fits zero s = omega arith
take_fits (suc n) [] = omega arith
take_fits (suc n) (c ∷ s) = omega (arith, take_fits n s)

in_buffer-fits : (maxlen : ℕ) (o : Option Bytes) → length (in_buffer maxlen o) ≤ maxlen
in_buffer-fits zero o = omega arith
in_buffer-fits (suc room) none = omega arith
in_buffer-fits (suc room) (some s) =
    ground (arith, length-append (take room s) (0 ∷ []), take_fits room s)

serialize-in_buffer :
    (print_g : ℕ → ℕ → Bytes) (strtod : Bytes → ℕ) (maxlen : ℕ) (pretty : Bool) (h : Option Node)
    → (serialize print_g strtod maxlen pretty h).0
      ≡ in_buffer maxlen (text_of (λ n. data_serialize_json print_g strtod n.value pretty) h)
unfolding serialize
serialize-in_buffer print_g strtod zero pretty none = refl
serialize-in_buffer print_g strtod (suc room) pretty none = refl
serialize-in_buffer print_g strtod zero pretty (some n) = refl
serialize-in_buffer print_g strtod (suc room) pretty (some n) =
    let some_room : (suc room == 0) ≡ false = ground arith in
    rw some_room (copy_out_lem room (data_serialize_json print_g strtod n.value pretty)).0

-- `Serialize` writes as much of the JSON text of the node as fits in front of a NUL, and nothing
-- without a node or without room, which is at most `maxlen` bytes; it returns how many characters of
-- the text stand in front of the NUL: all of them where they fit, and `maxlen - 1` otherwise.
pub serialize_lem :
    (print_g : ℕ → ℕ → Bytes) (strtod : Bytes → ℕ) (maxlen : ℕ) (pretty : Bool) (h : Option Node)
    → ((serialize print_g strtod maxlen pretty h).0
        ≡ in_buffer maxlen (text_of (λ n. data_serialize_json print_g strtod n.value pretty) h))
      × (length (serialize print_g strtod maxlen pretty h).0 ≤ maxlen)
      × ((serialize print_g strtod maxlen pretty h).1 ≡ (
          if ltb (length (serialize_to_string print_g strtod pretty h)) maxlen
          then length (serialize_to_string print_g strtod pretty h)
          else maxlen - 1))
serialize_lem print_g strtod maxlen pretty h =
    let written = serialize-in_buffer print_g strtod maxlen pretty h in
    (
      written,
      subst (λ u. length u ≤ maxlen) (sym written) (in_buffer-fits maxlen _),
      counted maxlen h,
    )
  where
    counted :
        (maxlen : ℕ) (h : Option Node)
        → (serialize print_g strtod maxlen pretty h).1 ≡ (
            if ltb (length (serialize_to_string print_g strtod pretty h)) maxlen
            then length (serialize_to_string print_g strtod pretty h)
            else maxlen - 1)
    counted zero none = unfold serialize in refl
    counted (suc room) none = unfold serialize in ground arith
    counted zero (some n) = unfold serialize in ground arith
    counted (suc room) (some n) =
        unfold serialize in
        let some_room : (suc room == 0) ≡ false = ground arith in
        let back : suc room - 1 ≡ room = omega arith in
        subst
          (λ k.
            (if suc room == 0
              then ([], 0)
              else copy_out (suc room) (data_serialize_json print_g strtod n.value pretty)).1
            ≡ (if ltb (length (data_serialize_json print_g strtod n.value pretty)) (suc room)
                then length (data_serialize_json print_g strtod n.value pretty)
                else k))
          (sym back)
          (rw some_room (copy_out_lem room (data_serialize_json print_g strtod n.value pretty)).1)
