-- ===== src/Hjson/Content.antt =====
-- What `skip_ws` skips, against a reading of the text one character at a time.
use async.Base.{
  ℕ, zero, suc, ◌≤◌, ◌≡◌, refl, ap, subst, ◌∙◌, Bool, true, false, not, ◌&&◌, [], ◌∷◌, Option, none,
  some, ◌>>=◌, ltb, ◌==◌, if◌then◌else◌, Bytes, length, All, arith, Bool-cases, inl, inr,
}
use async.Hjson.Scan.{
  is_ws, is_nl, count_until, skip_ws_scalar, find_char_scalar, find_newline_scalar,
}
use async.Hjson.Reader.{
  Reader, at, rest, pass, step, char_at, pass_line, closes, pass_block, after_slash, after_ws,
  skip_ws_upto, returned, skip_ws,
}
use async.Hjson.Returns.{Returns, skip_ws_upto-Returns}
use async.Hjson.Values.{is_comment_start}
use async.Hjson.Skips.{Left-skip_ws}

-- The text is at its end, or starts with neither white space nor a comment.
abbrev pub is_content : Bytes → Bool
is_content [] = true
is_content (c ∷ s) = not (is_ws c) && not (is_comment_start (c ∷ s))

pub All-unit : (s : Bytes) → All {0, 0} (λ c. Unit) s
All-unit [] = tt
All-unit (c ∷ s) = (tt, All-unit s)

-- Where a character stands: outside of comments, at the second slash of `//`, on a line that is a
-- comment, at the star of `/*`, inside such a comment, and at the slash that closes it.
pub data Place : Type 0 where
  outside second_slash line opening_star block closing_slash : Place

-- What is left of a text behind white space and comments. A block comment whose end is missing goes to
-- the end of the text, but a single last character behind `/*` or a star is not taken for a part of it.
unfoldable pub remaining : Place → Bytes → Bytes
remaining place [] = []
remaining outside (c ∷ s) =
    if is_ws c
    then remaining outside s
    else if c == 35
    then remaining line s
    else if (c == 47) && (char_at 0 s == 47)
    then remaining second_slash s
    else if (c == 47) && (char_at 0 s == 42)
    then remaining opening_star s
    else c ∷ s
remaining second_slash (c ∷ s) = remaining line s
remaining line (c ∷ s) = if is_nl c then remaining outside s else remaining line s
remaining opening_star (c ∷ s) = if ltb 1 (length s) then remaining block s else remaining outside s
remaining block (c ∷ s) =
    if c == 42
    then (if char_at 0 s == 47
        then remaining closing_slash s
        else if ltb 1 (length s)
        then remaining block s
        else remaining outside s)
    else remaining block s
remaining closing_slash (c ∷ s) = remaining outside s

abbrev inside : Bytes → Bytes
inside s = if ltb 1 (length s) then remaining block s else remaining outside s

-- White space is passed to its end.
abbrev starts_black : Bytes → Bool
starts_black [] = true
starts_black (c ∷ s) = not (is_ws c)

pass-skip_ws_scalar : (b s : Bytes) → starts_black (rest (pass (skip_ws_scalar s) b s)) ≡ true
unfolding pass skip_ws_scalar count_until
pass-skip_ws_scalar b [] = refl
pass-skip_ws_scalar b (c ∷ s) = elim (Bool-cases (is_ws c)) [
  | inl e ↦ rw e (pass-skip_ws_scalar (c ∷ b) s)
  | inr e ↦ rw e (ap not e)
]

pass_nothing : (t : Bool) (n : ℕ) (b s : Bytes) → t ≡ true → pass (if t then 0 else n) b s ≡ at b s
unfolding pass
pass_nothing t n b s e = rw e refl

remaining-skip_ws_scalar :
    (b s : Bytes) → remaining outside (rest (pass (skip_ws_scalar s) b s)) ≡ remaining outside s
unfolding pass skip_ws_scalar count_until remaining
remaining-skip_ws_scalar b [] = refl
remaining-skip_ws_scalar b (c ∷ s) = elim (Bool-cases (is_ws c)) [
  | inl e ↦ rw e (remaining-skip_ws_scalar (c ∷ b) s)
  | inr e ↦
      ap (λ q. remaining outside (rest q)) (pass_nothing (not (is_ws c)) _ b (c ∷ s) (ap not e))
]

remaining-pass_line :
    (b s : Bytes) → remaining outside (rest (pass_line (at b s))) ≡ remaining line s
unfolding pass pass_line find_newline_scalar count_until remaining
remaining-pass_line b [] = refl
remaining-pass_line b (c ∷ s) = elim (Bool-cases (is_nl c)) [
  | inl e ↦ rw e refl
  | inr e ↦ rw e (remaining-pass_line (c ∷ b) s)
]

abbrev starts_star : Bytes → Bool
starts_star [] = true
starts_star (c ∷ s) = c == 42

remaining-find_char :
    (b s : Bytes)
    → (remaining block (rest (pass (find_char_scalar s 42) b s)) ≡ remaining block s)
      × (starts_star (rest (pass (find_char_scalar s 42) b s)) ≡ true)
unfolding pass find_char_scalar count_until remaining
remaining-find_char b [] = (refl, refl)
remaining-find_char b (c ∷ s) = elim (Bool-cases (c == 42)) [
  | inl e ↦
      let still = pass_nothing (c == 42) (suc (count_until (λ d. d == 42) s)) b (c ∷ s) e in
      (ap (λ q. remaining block (rest q)) still, ap (λ q. starts_star (rest q)) still ∙ e)
  | inr e ↦ rw e (remaining-find_char (c ∷ b) s)
]

-- A loop that returns at a reader with this left outside of comments.
abbrev ComesTo : Bytes → Option Reader → Type 0
ComesTo t none = Unit
ComesTo t (some r) = remaining outside (rest r) ≡ t

star_closes :
    (c d : ℕ) (s : Bytes)
    → (c == 42) ≡ true
    → (d == 47) ≡ true
    → remaining outside s ≡ remaining block (c ∷ d ∷ s)
unfolding remaining
star_closes c d s e k = rw (e, k) refl

chosen :
    (t k : Bool) (x y z : Bytes)
    → t ≡ true
    → k ≡ false
    → y ≡ (if t then (if k then x else y) else z)
chosen t k x y z e f = rw (e, f) refl

star_goes_on :
    (c : ℕ) (s : Bytes)
    → (c == 42) ≡ true
    → (char_at 0 s == 47) ≡ false
    → inside s ≡ remaining block (c ∷ s)
unfolding remaining
star_goes_on c s e k =
    chosen (c == 42) (char_at 0 s == 47) (remaining closing_slash s) (inside s) (remaining block s)
      e k

ComesTo-if :
    (t : Bool) (x : Bytes) (o p : Option Reader)
    → (t ≡ true → ComesTo x o)
    → (t ≡ false → ComesTo x p)
    → ComesTo x (if t then o else p)
ComesTo-if true x o p h k = h refl
ComesTo-if false x o p h k = k refl

after_star :
    (q : Reader) (o : Option Reader)
    → starts_star (rest q) ≡ true
    → ComesTo (inside (rest (step q))) o
    → ComesTo (remaining block (rest q)) (if closes (rest q) then some (step (step q)) else o)
after_star (at b []) o e h = unfold remaining in h
after_star (at b (c ∷ [])) o e h =
    ComesTo-if (closes (c ∷ [])) _ _ _ (λ y. absurd (ground (arith, y)))
      (λ n. subst (λ t. ComesTo t o) (star_goes_on c [] e refl) h)
after_star (at b (c ∷ d ∷ s)) o e h =
    ComesTo-if (closes (c ∷ d ∷ s)) _ _ _ (λ y. star_closes c d s e (ground (arith, y)))
      (λ n. subst (λ t. ComesTo t o) (star_goes_on c (d ∷ s) e (ground (arith, e, n))) h)

pass_block-ComesTo : (fuel : ℕ) (r : Reader) → ComesTo (inside (rest r)) (pass_block fuel r)
unfolding pass_block
pass_block-ComesTo zero r = tt
pass_block-ComesTo (suc fuel) (at b s) = elim (Bool-cases (ltb 1 (length s))) [
  | inl e ↦
      let star : Reader = pass (find_char_scalar s 42) b s in
      let (same, there) = remaining-find_char b s in
      rw e (
        subst
          (λ t.
            ComesTo t
              (if closes (rest star) then some (step (step star)) else pass_block fuel (step star)))
          same
          (after_star star (pass_block fuel (step star)) there
            (pass_block-ComesTo fuel (step star))))
  | inr e ↦ rw e refl
]

-- The loop of `skip_ws` returns at content, with just this left.
abbrev StopsAt : Bytes → Option Reader → Type 0
StopsAt t none = Unit
StopsAt t (some r) = (rest r ≡ t) × (is_content (rest r) ≡ true)

StopsAt-if :
    (t : Bool) (x : Bytes) (o p : Option Reader)
    → (t ≡ true → StopsAt x o)
    → (t ≡ false → StopsAt x p)
    → StopsAt x (if t then o else p)
StopsAt-if true x o p h k = h refl
StopsAt-if false x o p h k = k refl

hash_line : (c : ℕ) (s : Bytes) → (c == 35) ≡ true → remaining line s ≡ remaining outside (c ∷ s)
unfolding remaining
hash_line c s e = let not_ws : is_ws c ≡ false = ground arith in rw (not_ws, e) refl

slash_line :
    (c d : ℕ) (s : Bytes)
    → (c == 47) ≡ true
    → (d == 47) ≡ true
    → remaining line s ≡ remaining outside (c ∷ d ∷ s)
unfolding remaining
slash_line c d s e k =
    let not_ws : is_ws c ≡ false = ground arith in
    let no_hash : (c == 35) ≡ false = ground arith in rw (not_ws, no_hash, e, k) refl

star_block :
    (c d : ℕ) (s : Bytes)
    → (c == 47) ≡ true
    → (d == 42) ≡ true
    → inside s ≡ remaining outside (c ∷ d ∷ s)
unfolding remaining
star_block c d s e k =
    let not_ws : is_ws c ≡ false = ground arith in
    let no_hash : (c == 35) ≡ false = ground arith in
    let no_slash : (d == 47) ≡ false = ground arith in rw (not_ws, no_hash, e, no_slash, k) refl

content_stays : (c : ℕ) (s : Bytes) → is_content (c ∷ s) ≡ true → c ∷ s ≡ remaining outside (c ∷ s)
unfolding remaining
content_stays c s h =
    let not_ws : is_ws c ≡ false = ground arith in
    let no_hash : (c == 35) ≡ false = ground arith in
    let no_line : ((c == 47) && (char_at 0 s == 47)) ≡ false = ground arith in
    let no_block : ((c == 47) && (char_at 0 s == 42)) ≡ false = ground arith in
    rw (not_ws, no_hash, no_line, no_block) refl

module _ (again : Reader → Option Reader)
    (stops : (r : Reader) → StopsAt (remaining outside (rest r)) (again r)) where
  line_stops : (b s : Bytes) → StopsAt (remaining line s) (again (pass_line (at b s)))
  line_stops b s =
      subst (λ t. StopsAt t (again (pass_line (at b s)))) (remaining-pass_line b s)
        (stops (pass_line (at b s)))

  block_stops : (o : Option Reader) (t : Bytes) → ComesTo t o → StopsAt t (o >>= again)
  block_stops none t h = tt
  block_stops (some r) t h = subst (λ u. StopsAt u (again r)) h (stops r)

  after_slash-StopsAt :
      (c : ℕ) (b s : Bytes)
      → (c == 47) ≡ true
      → StopsAt (remaining outside (c ∷ s)) (after_slash again c b s)
  after_slash-StopsAt c b [] e =
      let plain : is_content (c ∷ []) ≡ true = ground arith in (content_stays c [] plain, plain)
  after_slash-StopsAt c b (d ∷ s) e =
      StopsAt-if (d == 47) _ _ _
        (λ k.
          subst (λ t. StopsAt t (again (pass_line (at (d ∷ c ∷ b) s)))) (slash_line c d s e k)
            (line_stops (d ∷ c ∷ b) s))
        (λ n.
          StopsAt-if (d == 42) _ _ _
            (λ k.
              subst (λ t. StopsAt t (pass_block (suc (length s)) (at (d ∷ c ∷ b) s) >>= again))
                (star_block c d s e k)
                (block_stops (pass_block (suc (length s)) (at (d ∷ c ∷ b) s)) (inside s)
                  (pass_block-ComesTo (suc (length s)) (at (d ∷ c ∷ b) s))))
            (λ m.
              let plain : is_content (c ∷ d ∷ s) ≡ true = ground arith in
              (content_stays c (d ∷ s) plain, plain)))

  after_ws-StopsAt :
      (r : Reader)
      → starts_black (rest r) ≡ true
      → StopsAt (remaining outside (rest r)) (after_ws again r)
  after_ws-StopsAt (at b []) e = unfold remaining in (refl, refl)
  after_ws-StopsAt (at b (c ∷ s)) e =
      StopsAt-if (c == 35) _ _ _
        (λ k.
          subst (λ t. StopsAt t (again (pass_line (at (c ∷ b) s)))) (hash_line c s k)
            (line_stops (c ∷ b) s))
        (λ n.
          StopsAt-if (c == 47) _ _ _ (λ k. after_slash-StopsAt c b s k)
            (λ m.
              let plain : is_content (c ∷ s) ≡ true = ground arith in
              (content_stays c s plain, plain)))

skip_ws_upto-StopsAt :
    (fuel : ℕ) (r : Reader) → StopsAt (remaining outside (rest r)) (skip_ws_upto fuel r)
unfolding skip_ws_upto
skip_ws_upto-StopsAt zero r = tt
skip_ws_upto-StopsAt (suc fuel) (at b s) =
    let black : Reader = pass (skip_ws_scalar s) b s in
    subst (λ t. StopsAt t (after_ws (λ r. skip_ws_upto fuel r) black))
      (remaining-skip_ws_scalar b s)
      (after_ws-StopsAt (λ r. skip_ws_upto fuel r) (λ r. skip_ws_upto-StopsAt fuel r) black
        (pass-skip_ws_scalar b s))

returned-StopsAt :
    (o : Option Reader) (h : Returns o) (t : Bytes)
    → StopsAt t o
    → (rest (returned o h) ≡ t) × (is_content (rest (returned o h)) ≡ true)
returned-StopsAt none h t k = absurd h
returned-StopsAt (some r) h t k = k

-- `skip_ws` leaves what a reading one character at a time leaves behind white space and comments:
-- nothing, or a text that starts with neither. It does not go back.
pub skip_ws-remaining :
    (r : Reader)
    → (rest (skip_ws r) ≡ remaining outside (rest r))
      × (is_content (rest (skip_ws r)) ≡ true)
      × (length (rest (skip_ws r)) ≤ length (rest r))
skip_ws-remaining r =
    let stops : (rest (skip_ws r) ≡ remaining outside (rest r))
        × (is_content (rest (skip_ws r)) ≡ true) =
      unfold skip_ws in
      returned-StopsAt _ (skip_ws_upto-Returns r) (remaining outside (rest r))
        (skip_ws_upto-StopsAt (suc (length (rest r))) r) in
    (stops.0, stops.1, (Left-skip_ws r (All-unit (rest r))).short)
