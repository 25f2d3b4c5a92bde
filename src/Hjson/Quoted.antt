-- ===== src/Hjson/Quoted.antt =====
-- Reading a string or a key ends, at a tail of the text, and throws nothing.
use async.Base.{
  ℕ, zero, suc, ◌+◌, ◌*◌, ◌≤◌, ◌<◌, Bool, false, not, ◌&&◌, ◌||◌, [], ◌∷◌, ◌++◌, Option, none, some,
  ◌>>=◌, ◌==◌, Bytes, length, All, arith, take, drop,
}
use async.Hex.{digit_value}
use async.Hjson.Scan.{is_nl, is_quote, is_punctuator, count_until, find_quote_or_special_scalar}
use async.Hjson.Reader.{Reader, at, rest, pass, char_at}
use async.Hjson.Strings.{
  Outcome, parse_u_escape, is_blank, skip_indent, multiline_char, multiline, multiline_start,
  read_multiline_string, escape_value, after_u, after_escape, quoted_escape, quoted_char, quoted,
  read_string_body, read_quoted_string,
}
use async.Hjson.Keys.{is_low, has_space_inside, unquoted_key, read_unquoted_key, read_key}
use async.Hjson.Skips.{Left, Left-here, Left-after, Left-later, Left-if, Left-pass, Left-step}
use async.Hjson.Ensures.{Ensures, holds, refused, Ensures-weaken, Ensures-if}

module _ (P : ℕ → Type 0) (T : Type 0) where
  -- What a function gives that has read a part of `s`.
  abbrev pub Reads : {A : Type 0} → Bytes → Outcome A → Type 0
  Reads s o = Ensures T (λ _ r. Left P s r) o

  pub Reads-after :
      {A : Type 0} {s : Bytes} {r : Reader} {o : Outcome A}
      → Left P s r
      → Reads (rest r) o
      → Reads s o
  Reads-after h k = Ensures-weaken k (λ _ _ l. Left-after h l)

  pub Reads-later : {A : Type 0} {c : ℕ} {s : Bytes} {o : Outcome A} → Reads s o → Reads (c ∷ s) o
  Reads-later k = Ensures-weaken k (λ _ _ l. Left-later l)

  Left-skip_indent : (n : ℕ) (b s : Bytes) → All P s → Left P s (skip_indent n b s)
  unfolding skip_indent
  Left-skip_indent zero b s p = Left-here p
  Left-skip_indent (suc n) b [] p = Left-here p
  Left-skip_indent (suc n) b (c ∷ s) p =
      Left-if (is_blank c) (Left-later (Left-skip_indent n (c ∷ b) s p.1)) (Left-here p)

  Left-multiline_start :
      (indent : ℕ) (r : Reader) → All P (rest r) → Left P (rest r) (multiline_start indent r)
  Left-multiline_start indent (at b []) p = Left-here p
  Left-multiline_start indent (at b (c ∷ s)) p =
      Left-if (c == 10) (Left-later (Left-skip_indent indent (c ∷ b) s p.1)) (Left-here p)

  module _ (n : ℕ) (again : Bytes → ℕ → Bool → Reader → Outcome Bytes)
      (reads : (out : Bytes) (triple : ℕ) (last_lf : Bool) (r : Reader)
        → length (rest r) < n
        → All P (rest r)
        → Reads (rest r) (again out triple last_lf r)) where
    multiline_char-Ensures :
        (indent : ℕ) (out : Bytes) (triple : ℕ) (last_lf : Bool) (r : Reader)
        → length (rest r) ≤ n
        → All P (rest r)
        → Reads (rest r) (multiline_char again indent out triple last_lf r)
    unfolding multiline_char
    multiline_char-Ensures indent out triple last_lf (at b []) h p = refused
    multiline_char-Ensures indent out triple last_lf (at b (c ∷ s)) h p =
        let line = Left-skip_indent indent (c ∷ b) s p.1 in
        Ensures-if (c == 39)
          (λ e.
            Ensures-if (suc triple == 3) (λ k. holds (Left-later (Left-here p.1)))
              (λ k. Reads-later (reads _ _ _ (at (c ∷ b) s) (omega arith) p.1)))
          (λ e.
            Ensures-if (c == 10)
              (λ k.
                Reads-later
                  (Reads-after line (reads _ _ _ _ (omega (arith, line.short)) line.good)))
              (λ k.
                Ensures-if (c == 13)
                  (λ l. Reads-later (reads _ _ _ (at (c ∷ b) s) (omega arith) p.1))
                  (λ l. Reads-later (reads _ _ _ (at (c ∷ b) s) (omega arith) p.1))))

  multiline-Ensures :
      (fuel indent : ℕ) (out : Bytes) (triple : ℕ) (last_lf : Bool) (r : Reader)
      → length (rest r) < fuel
      → All P (rest r)
      → Reads (rest r) (multiline fuel indent out triple last_lf r)
  unfolding multiline
  multiline-Ensures zero indent out triple last_lf r h p = absurd (omega arith)
  multiline-Ensures (suc fuel) indent out triple last_lf r h p =
      multiline_char-Ensures fuel (λ o t l r1. multiline fuel indent o t l r1)
        (λ o t l r1. multiline-Ensures fuel indent o t l r1) indent out triple last_lf r
        (omega arith) p

  read_multiline_string-Ensures :
      (r : Reader) → All P (rest r) → Reads (rest r) (read_multiline_string r)
  unfolding read_multiline_string
  read_multiline_string-Ensures (at b s) p =
      let indent = count_until (λ c. (c == 10) || (c == 0)) (drop 3 b) in
      let line : Reader = pass (count_until (λ c. not (is_blank c)) s) b s in
      let first = Left-pass (count_until (λ c. not (is_blank c)) s) b s p in
      let start = Left-after first (Left-multiline_start indent line first.good) in
      Reads-after start (
        multiline-Ensures (suc (length s)) indent [] 0 false (multiline_start indent line)
          (omega (arith, start.short)) start.good)

  abbrev EscapeLeft : Bytes → Option (ℕ × Reader) → Type 0
  EscapeLeft s none = Unit
  EscapeLeft s (some (cp, r)) = Left P s r

  EscapeLeft-later :
      (c : ℕ) (s : Bytes) (o : Option (ℕ × Reader)) → EscapeLeft s o → EscapeLeft (c ∷ s) o
  EscapeLeft-later c s none h = tt
  EscapeLeft-later c s (some (cp, r)) h = Left-later h

  EscapeLeft-digit :
      (s : Bytes) (d : Option ℕ) (f : ℕ → Option (ℕ × Reader))
      → ((v : ℕ) → EscapeLeft s (f v))
      → EscapeLeft s (d >>= f)
  EscapeLeft-digit s none f h = tt
  EscapeLeft-digit s (some v) f h = h v

  parse_u_escape-Left :
      (n cp : ℕ) (r : Reader) → All P (rest r) → EscapeLeft (rest r) (parse_u_escape n cp r)
  unfolding parse_u_escape
  parse_u_escape-Left zero cp (at b s) p = Left-here p
  parse_u_escape-Left (suc n) cp (at b []) p = tt
  parse_u_escape-Left (suc n) cp (at b (h ∷ s)) p = EscapeLeft-digit (h ∷ s) (digit_value h) _ (λ v.
      EscapeLeft-later h s (parse_u_escape n (cp * 16 + v) (at (h ∷ b) s))
        (parse_u_escape-Left n (cp * 16 + v) (at (h ∷ b) s) p.1))

  module _ (n : ℕ) (again : Bytes → Reader → Outcome Bytes)
      (reads : (out : Bytes) (r : Reader)
        → length (rest r) < n
        → All P (rest r)
        → Reads (rest r) (again out r)) where
    after_u-Ensures :
        (out s : Bytes) (o : Option (ℕ × Reader))
        → length s < n
        → EscapeLeft s o
        → Reads s (after_u again out o)
    after_u-Ensures out s none h l = refused
    after_u-Ensures out s (some (cp, r)) h l =
        Reads-after l (reads _ r (omega (arith, h, l.short)) l.good)

    after_escape-Ensures :
        (out : Bytes) (o : Option ℕ) (r : Reader)
        → length (rest r) < n
        → All P (rest r)
        → Reads (rest r) (after_escape again out o r)
    after_escape-Ensures out none r h p = refused
    after_escape-Ensures out (some c) r h p = reads _ r h p

    quoted_escape-Ensures :
        (out : Bytes) (r : Reader)
        → length (rest r) ≤ n
        → All P (rest r)
        → Reads (rest r) (quoted_escape again out r)
    quoted_escape-Ensures out (at b []) h p = refused
    quoted_escape-Ensures out (at b (c ∷ s)) h p =
        Ensures-if (c == b'u')
          (λ e.
            Reads-later
              (after_u-Ensures out s _ (omega arith) (parse_u_escape-Left 4 0 (at (c ∷ b) s) p.1)))
          (λ e.
            Reads-later
              (after_escape-Ensures out (escape_value c) (at (c ∷ b) s) (omega arith) p.1))

    quoted_char-Ensures :
        (quote : ℕ) (out : Bytes) (r : Reader)
        → length (rest r) ≤ n
        → All P (rest r)
        → Reads (rest r) (quoted_char again quote out r)
    quoted_char-Ensures quote out (at b []) h p = refused
    quoted_char-Ensures quote out (at b (c ∷ s)) h p =
        Ensures-if (c == quote) (λ e. holds (Left-later (Left-here p.1)))
          (λ e.
            Ensures-if (is_nl c) (λ k. refused)
              (λ k.
                Ensures-if (not (c == 92))
                  (λ l. Reads-later (reads _ (at (c ∷ b) s) (omega arith) p.1))
                  (λ l. Reads-later (quoted_escape-Ensures out (at (c ∷ b) s) (omega arith) p.1))))

  quoted-Ensures :
      (fuel quote : ℕ) (out : Bytes) (r : Reader)
      → length (rest r) < fuel
      → All P (rest r)
      → Reads (rest r) (quoted fuel quote out r)
  unfolding quoted
  quoted-Ensures zero quote out r h p = absurd (omega arith)
  quoted-Ensures (suc fuel) quote out (at b s) h p =
      let run = find_quote_or_special_scalar s quote in
      let passed = Left-pass run b s p in
      Reads-after passed (
        quoted_char-Ensures fuel (λ o r. quoted fuel quote o r)
          (λ o r. quoted-Ensures fuel quote o r) quote (out ++ take run s) (pass run b s)
          (omega (arith, passed.short)) passed.good)

  read_string_body-Ensures :
      (quote : ℕ) (allow_ml : Bool) (b s : Bytes)
      → All P s
      → Reads s (read_string_body quote allow_ml b s)
  unfolding read_string_body
  read_string_body-Ensures quote allow_ml b s p =
      let plain = quoted-Ensures (suc (length s)) quote [] (at b s) (omega arith) p in
      let two = Left-pass 2 b s p in
      Ensures-if (quote == 39)
        (λ e.
          Ensures-if (allow_ml && (char_at 0 s == 39) && (char_at 1 s == 39))
            (λ k. Reads-after two (read_multiline_string-Ensures (pass 2 b s) two.good))
            (λ k. Ensures-if (char_at 0 s == 39) (λ l. holds (Left-step (at b s) p)) (λ l. plain)))
        (λ e. plain)

  -- A string is one character at least.
  pub read_quoted_string-Ensures :
      (b : Bytes) (c : ℕ) (s : Bytes) (allow_ml : Bool)
      → All P s
      → Reads s (read_quoted_string (at b (c ∷ s)) allow_ml)
  unfolding read_quoted_string
  read_quoted_string-Ensures b c s allow_ml p =
      Ensures-if (is_quote c) (λ e. read_string_body-Ensures c allow_ml (c ∷ b) s p) (λ e. refused)

  unquoted_key-Ensures :
      (start : Bytes) (i key_end : ℕ) (first_space : Option ℕ) (b s : Bytes)
      → All P s
      → Reads s (unquoted_key start i key_end first_space b s)
  unfolding unquoted_key
  unquoted_key-Ensures start i key_end first_space b [] p = refused
  unquoted_key-Ensures start i key_end first_space b (c ∷ s) p =
      let more = unquoted_key-Ensures start (suc i) _ _ (c ∷ b) s p.1 in
      Ensures-if (c == b':')
        (λ e.
          Ensures-if (key_end == 0) (λ k. refused)
            (λ k.
              Ensures-if (has_space_inside first_space key_end) (λ l. refused)
                (λ l. holds (Left-here p))))
        (λ e.
          Ensures-if (is_low c) (λ k. Ensures-if (c == 0) (λ l. refused) (λ l. Reads-later more))
            (λ k. Ensures-if (is_punctuator c) (λ l. refused) (λ l. Reads-later more)))

  pub read_key-Ensures : (r : Reader) → All P (rest r) → Reads (rest r) (read_key r)
  unfolding read_key read_unquoted_key
  read_key-Ensures (at b []) p = refused
  read_key-Ensures (at b (c ∷ s)) p =
      Ensures-if (is_quote c)
        (λ e.
          Ensures-if ((c == 39) && (char_at 0 s == 39) && (char_at 1 s == 39)) (λ k. refused)
            (λ k. Reads-later (read_quoted_string-Ensures b c s false p.1)))
        (λ e. unquoted_key-Ensures (c ∷ s) 0 0 none b (c ∷ s) p)
