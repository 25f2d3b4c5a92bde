-- ===== src/Hjson/Unquoted.antt =====
-- Reading a value without quotes ends, behind its first character, and throws only for a control
-- character or a text that no memory holds.
use async.Base.{
  ℕ, zero, suc, ◌+◌, ◌^◌, ◌≤◌, ◌<◌, ◌≡◌, refl, Bool, true, false, ◌&&◌, ◌||◌, [], ◌∷◌, Option, none,
  some, ltb, leb, ◌==◌, if◌then◌else◌, Bytes, length, drop, All, arith,
}
use async.Data.{DataNode}
use async.Hjson.Scan.{is_nl, is_punctuator}
use async.Hjson.Reader.{Reader, at, rest}
use async.Hjson.Strings.{Outcome, ok}
use async.Hjson.Numbers.{try_parse_keyword_or_number}
use async.Hjson.Values.{
  is_comment_start, value_length, made_of, finish_value, ends_here, unquoted_value,
  read_unquoted_value,
}
use async.Hjson.Content.{is_content}
use async.Hjson.Ensures.{Ensures, holds, refused, raised, Ensures-if}
use async.Hjson.Document.{IsDocument}
use async.Hjson.Scalars.{is_control, IsFound, IsFound-if, try_parse-IsFound}

-- A value was read, and fewer than `n` characters are left.
pub record Within (P : ℕ → Type 0) (d n : ℕ) (v : DataNode) (r : Reader) : Type 0 where
  pub document : IsDocument d v
  pub good : All P (rest r)
  pub shorter : length (rest r) < n

-- `valStart`, counted from the position of the value.
abbrev offset : ℕ → ℕ
offset c = if leb c 32 && ltb 0 c then 1 else 0

offset_few : (c : ℕ) → offset c ≤ 1
offset_few c = ground arith

offset_one : (c : ℕ) → offset c ≡ 1 → (leb c 32 && ltb 0 c) ≡ true
offset_one c h = ground arith

no_end :
    (c : ℕ) (t : Bool)
    → c ≤ 32
    → t ≡ false
    → ((c == b',') || (c == b'}') || (c == b']') || t) ≡ false
no_end c t h k = ground arith

-- Fewer than `size` characters are in the text; `T` follows from a cause for an exception.
module _ (strtod : Bytes → ℕ × ℕ) (P : ℕ → Type 0) (T : Type 0) (size d : ℕ)
    (blame : (c : ℕ) → P c → is_control c ≡ true → T) (large : 2 ^ 63 ≤ size → T) where
  found :
      (n : ℕ) (r : Reader) (o : Option DataNode) (p : Outcome DataNode)
      → All P (rest r)
      → length (rest r) < n
      → IsFound d o
      → Ensures T (Within P d n) p
      → Ensures T (Within P d n) (elim o [ none ↦ p | some v ↦ ok v r ])
  found n r none p good short h k = k
  found n r (some v) p good short h k =
      holds (record { document = h; good = good; shorter = short })

  finish_value-Ensures :
      (start : Bytes) (val_start val_end n : ℕ) (r : Reader)
      → val_start ≤ 1
      → (val_start ≡ 1 → T)
      → val_end ≤ size
      → All P (rest r)
      → length (rest r) < n
      → Ensures T (Within P d n) (finish_value strtod start (value_length val_end val_start) r)
  unfolding IsDocument
  finish_value-Ensures start val_start val_end n r few odd small good short =
      made (try_parse_keyword_or_number strtod start (value_length val_end val_start))
        (try_parse-IsFound strtod d start (value_length val_end val_start))
    where
      why : (k : ℕ) → k ≤ 1 → (k ≡ 1 → T) → leb (2 ^ 63) (value_length val_end k) ≡ true → T
      why zero h f e = large (ground arith)
      why (suc zero) h f e = f refl
      why (suc (suc k)) h f e = absurd (omega arith)

      made :
          (o : Option DataNode)
          → IsFound d o
          → Ensures T (Within P d n) (made_of strtod start (value_length val_end val_start) r o)
      made (some v) h = holds (record { document = h; good = good; shorter = short })
      made none h =
          Ensures-if (value_length val_end val_start == 0) (λ e. refused)
            (λ e.
              Ensures-if (leb (2 ^ 63) (value_length val_end val_start))
                (λ k. raised (why val_start few odd k))
                (λ k. holds (record { document = tt; good = good; shorter = short })))

  unquoted_value-Ensures :
      (start : Bytes) (val_start pos val_end n : ℕ) (b s : Bytes)
      → val_start ≤ 1
      → (val_start ≡ 1 → T)
      → val_end ≤ pos
      → pos + length s ≤ size
      → All P s
      → length s < n
      → Ensures T (Within P d n) (unquoted_value strtod start val_start pos val_end b s)
  unfolding unquoted_value
  unquoted_value-Ensures start val_start pos val_end n b [] few odd low small good short =
      finish_value-Ensures start val_start val_end n (at b []) few odd (omega arith) good short
  unquoted_value-Ensures start val_start pos val_end n b (c ∷ s) few odd low small good short =
      let next =
        unquoted_value-Ensures start val_start (suc pos) (if ltb 32 c then suc pos else val_end) n
          (c ∷ b) s few odd (ground arith) (omega arith) good.1 (omega arith) in
      Ensures-if (is_nl c)
        (λ e.
          finish_value-Ensures start val_start val_end n (at b (c ∷ s)) few odd (omega arith) good
            short)
        (λ e.
          found n (at b (c ∷ s)) (ends_here strtod start (value_length val_end val_start) (c ∷ s)) _
            good short
            (IsFound-if d ((c == b',') || (c == b'}') || (c == b']') || is_comment_start (c ∷ s))
              (try_parse_keyword_or_number strtod start (value_length val_end val_start)) none
              (try_parse-IsFound strtod d start (value_length val_end val_start)) tt)
            next)

  -- Nothing ends at the first character.
  none_here :
      (start : Bytes) (k c : ℕ) (s : Bytes)
      → k ≤ 1
      → (k ≡ 1 → (c ≤ 32) × (is_comment_start (c ∷ s) ≡ false))
      → ends_here strtod start (value_length 0 k) (c ∷ s) ≡ none
  unfolding try_parse_keyword_or_number
  none_here start zero c s few odd =
      same ((c == b',') || (c == b'}') || (c == b']') || is_comment_start (c ∷ s))
    where
      same : (b : Bool) → ◌≡◌ {A = Option DataNode} (if b then none else none) none
      same true = refl
      same false = refl
  none_here start (suc zero) c s few odd =
      rw (no_end c (is_comment_start (c ∷ s)) (odd refl).0 (odd refl).1) refl
  none_here start (suc (suc k)) c s few odd = absurd (omega arith)

  first_step :
      (start : Bytes) (k : ℕ) (b : Bytes) (c : ℕ) (s : Bytes)
      → is_nl c ≡ false
      → k ≤ 1
      → (k ≡ 1 → T)
      → (k ≡ 1 → (c ≤ 32) × (is_comment_start (c ∷ s) ≡ false))
      → All P s
      → suc (length s) ≤ size
      → Ensures T (Within P d (suc (length s))) (unquoted_value strtod start k 0 0 b (c ∷ s))
  unfolding unquoted_value
  first_step start k b c s black few odd low good small =
      rw (black, none_here start k c s few low)
        (unquoted_value-Ensures start k 1 (if ltb 32 c then 1 else 0) (suc (length s)) (c ∷ b) s few
          odd (ground arith) (omega arith) good (omega arith))

  pub read_unquoted_value-Ensures :
      (b : Bytes) (c : ℕ) (s : Bytes)
      → is_content (c ∷ s) ≡ true
      → All P (c ∷ s)
      → suc (length s) ≤ size
      → Ensures T (Within P d (suc (length s))) (read_unquoted_value strtod (at b (c ∷ s)))
  unfolding read_unquoted_value
  read_unquoted_value-Ensures b c s content good small =
      Ensures-if (is_punctuator c) (λ e. refused)
        (λ e.
          first_step (drop (offset c) (c ∷ s)) (offset c) b c s (ground arith) (offset_few c)
            (λ k. blame c good.0 (ground (arith, offset_one c k)))
            (λ k. (ground (arith, offset_one c k), ground (arith, offset_one c k))) good.1 small)
