-- ===== src/Hjson/Words.antt =====
-- Words that stand for themselves, with no quotes around them: numbers, Booleans and null.
use async.Base.{
  ℕ, suc, ◌+◌, ◌^◌, ◌<◌, ◌≡◌, refl, Bool, true, false, ◌&&◌, ◌||◌, [], ◌∷◌, ◌++◌, some, ltb, leb,
  ◌==◌, if◌then◌else◌, Bytes, bytes_eq, length, drop, arith,
}
use async.Data.{DataNode, int, bool, null}
use async.Json.{serialize_int, null_text, bool_text}
use async.Hjson.Scan.{is_nl, is_punctuator}
use async.Hjson.Reader.{at}
use async.Hjson.Digits.{is_end}
use async.Hjson.ReadBack.{Gives}
use async.Hjson.Strings.{rejected}
use async.Hjson.Values.{value_length, is_comment_start, unquoted_value, read_unquoted_value}
use async.Hjson.Numbers.{try_parse_keyword_or_number}
use async.Hjson.Integers.{
  IsPlain, plain-is_visible, plain-is_punctuator, serialize_int-IsNumber, try_integer,
}

module _ (strtod : Bytes → ℕ × ℕ) where
  -- A word of plain characters is passed up to its end, and then tried.
  unquoted_word :
      (start : Bytes) (n pos : ℕ) (b w r : Bytes) (v : DataNode)
      → IsPlain w
      → is_end r ≡ true
      → pos + length w ≡ n
      → n < 2 ^ 64
      → try_parse_keyword_or_number strtod start n ≡ some v
      → Gives (unquoted_value strtod start 0 pos pos b (w ++ r)) v r
  unfolding unquoted_value
  unquoted_word start n pos b [] [] v plain e q h k =
      let whole : value_length pos 0 ≡ n = omega arith in rw (whole, k) (b, refl)
  unquoted_word start n pos b [] (c ∷ r) v plain e q h k =
      let whole : value_length pos 0 ≡ n = omega arith in
      let no_nl : is_nl c ≡ false = ground arith in
      let stops : ((c == b',') || (c == b'}') || (c == b']') || is_comment_start (c ∷ r)) ≡ true =
        ground arith in
      rw (no_nl, stops, whole, k) (b, refl)
  unquoted_word start n pos b (c ∷ w) r v plain e q h k =
      let p = plain.0 in
      let no_nl : is_nl c ≡ false = ground arith in
      let goes_on : ((c == b',') || (c == b'}') || (c == b']') || is_comment_start (c ∷ (w ++ r)))
          ≡ false =
        ground arith in
      let visible : ltb 32 c ≡ true = ground arith in
      rw (no_nl, goes_on, visible)
        (unquoted_word start n (suc pos) (c ∷ b) w r v plain.1 e (omega arith) h k)

  -- What stands for itself when no quotes are around it.
  pub read_word :
      (b w r : Bytes) (v : DataNode)
      → IsPlain w
      → 0 < length w
      → length w < 2 ^ 64
      → is_end r ≡ true
      → try_parse_keyword_or_number strtod (w ++ r) (length w) ≡ some v
      → Gives (read_unquoted_value strtod (at b (w ++ r))) v r
  unfolding read_unquoted_value
  read_word b [] r v plain pos h e k = absurd (omega arith)
  read_word b (c ∷ w) r v plain pos h e k =
      by_tests (leb c 32 && ltb 0 c) (is_punctuator c) (plain-is_visible c plain.0)
        (plain-is_punctuator c plain.0)
        (unquoted_word (c ∷ w ++ r) (length (c ∷ w)) 0 b (c ∷ w) r v plain e (omega arith) h k)
    where
      by_tests :
          (t p : Bool)
          → t ≡ false
          → p ≡ false
          → Gives (unquoted_value strtod (c ∷ w ++ r) 0 0 0 b (c ∷ w ++ r)) v r
          → Gives
              (if p
                then rejected
                else unquoted_value strtod
                    (drop (if t then 1 else 0) (c ∷ w ++ r))
                    (if t then 1 else 0)
                    0
                    0
                    b
                    (c ∷ w ++ r))
              v
              r
      by_tests false false x y g = g
      by_tests true p x y g = absurd (ground (arith, x))
      by_tests t true x y g = absurd (ground (arith, y))

  pub read_int :
      (v : ℕ) (b r : Bytes)
      → v < 2 ^ 64
      → is_end r ≡ true
      → Gives (read_unquoted_value strtod (at b (serialize_int v ++ r))) (int v) r
  read_int v b r h e =
      let number = serialize_int-IsNumber v h in
      read_word b (serialize_int v) r (int v) number.plain number.long (omega (arith, number.short))
        e (try_integer strtod (serialize_int v) r v number e)

  pub read_bool :
      (t : Bool) (b r : Bytes)
      → is_end r ≡ true
      → Gives (read_unquoted_value strtod (at b (bool_text t ++ r))) (bool t) r
  unfolding try_parse_keyword_or_number bytes_eq
  read_bool true b r e =
      read_word b (bool_text true) r (bool true) (refl, (refl, (refl, (refl, tt)))) (omega arith)
        (omega arith) e refl
  read_bool false b r e =
      read_word b (bool_text false) r (bool false) (refl, (refl, (refl, (refl, (refl, tt)))))
        (omega arith) (omega arith) e refl

  pub read_null :
      (b r : Bytes)
      → is_end r ≡ true
      → Gives (read_unquoted_value strtod (at b (null_text ++ r))) null r
  unfolding try_parse_keyword_or_number bytes_eq
  read_null b r e =
      read_word b null_text r null (refl, (refl, (refl, (refl, tt)))) (omega arith) (omega arith) e
        refl
