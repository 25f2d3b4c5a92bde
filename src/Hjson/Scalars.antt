-- ===== src/Hjson/Scalars.antt =====
-- Numbers, keywords and strings without quotes.
use async.Base.{
  ℕ, suc, ◌-◌, ◌*◌, ◌%◌, ◌^◌, ◌<◌, ◌≡◌, refl, Bool, true, false, not, ◌&&◌, ◌||◌, Option, none,
  some, ltb, leb, ◌==◌, if◌then◌else◌, Bytes, bytes_eq, take, drop, arith,
}
use async.Data.{DataNode, null, bool, int, float}
use async.Json.{null_text, bool_text}
use async.Hjson.Scan.{is_ws, count_until}
use async.Hjson.Reader.{char_at}
use async.Hjson.Numbers.{
  is_digit, check_number, decimal_value, strtoll, finite_float, int_or_float, number_node,
  try_parse_number, try_parse_keyword_or_number,
}
use async.Hjson.Document.{IsDocument}

-- A control character that is not white space.
abbrev pub is_control : ℕ → Bool
is_control c = leb c 32 && ltb 0 c && not (is_ws c)

abbrev pub IsFound : (d : ℕ) → Option DataNode → Type 0
IsFound d none = Unit
IsFound d (some v) = IsDocument d v

pub IsFound-if :
    (d : ℕ) (b : Bool) (o p : Option DataNode)
    → IsFound d o
    → IsFound d p
    → IsFound d (if b then o else p)
IsFound-if d true o p h k = h
IsFound-if d false o p h k = k

abbrev InRange : ℕ × Option ℕ → Type 0
InRange (taken, none) = Unit
InRange (taken, some v) = v < 2 ^ 64

strtoll-InRange : (s : Bytes) → InRange (strtoll s)
unfolding strtoll
strtoll-InRange s =
    ranges (char_at 0 s == b'-') (decimal_value 0 (if char_at 0 s == b'-' then drop 1 s else s))
      (count_until (λ c. not (is_digit c)) (if char_at 0 s == b'-' then drop 1 s else s))
  where
    bounded :
        (b : Bool) (taken v : ℕ)
        → (b ≡ true → v < 2 ^ 64)
        → InRange (taken, if b then some v else none)
    bounded true taken v h = h refl
    bounded false taken v h = tt

    ranges :
        (negative : Bool) (n taken : ℕ)
        → InRange (
            if negative
            then (suc taken, if leb n (2 ^ 63) then some ((2 ^ 64 - n) % 2 ^ 64) else none)
            else (taken, if ltb n (2 ^ 63) then some n else none))
    ranges true n taken =
        bounded (leb n (2 ^ 63)) (suc taken) ((2 ^ 64 - n) % 2 ^ 64) (λ e. omega arith)
    ranges false n taken = bounded (ltb n (2 ^ 63)) taken n (λ e. ground arith)

module _ (strtod : Bytes → ℕ × ℕ) (d : ℕ) where
  finite_float-IsFound : (len : ℕ) (r : ℕ × ℕ) → IsFound d (finite_float strtod len r)
  unfolding IsDocument
  finite_float-IsFound len (v, taken) =
      when ((taken == len) && ltb (v % 2 ^ 63) (2047 * 2 ^ 52)) (λ e. ground arith)
    where
      when :
          (b : Bool)
          → (b ≡ true → v % 2 ^ 63 < 2047 * 2 ^ 52)
          → IsFound d (if b then some (float v) else none)
      when true h = h refl
      when false h = tt

  int_or_float-IsFound :
      (start : Bytes) (len : ℕ) (r : ℕ × Option ℕ)
      → InRange r
      → IsFound d (int_or_float strtod start len r)
  unfolding IsDocument
  int_or_float-IsFound start len (taken, some v) h =
      IsFound-if d (taken == len) (some (int v)) (finite_float strtod len (strtod start)) h
        (finite_float-IsFound len (strtod start))
  int_or_float-IsFound start len (taken, none) h = finite_float-IsFound len (strtod start)

  number_node-IsFound :
      (start : Bytes) (len : ℕ) (o : Option Bool) → IsFound d (number_node strtod start len o)
  number_node-IsFound start len none = tt
  number_node-IsFound start len (some true) = finite_float-IsFound len (strtod start)
  number_node-IsFound start len (some false) =
      int_or_float-IsFound start len (strtoll start) (strtoll-InRange start)

  pub try_parse-IsFound :
      (start : Bytes) (len : ℕ) → IsFound d (try_parse_keyword_or_number strtod start len)
  unfolding try_parse_keyword_or_number try_parse_number IsDocument
  try_parse-IsFound start len = IsFound-if d (len == 0) none _ tt (
      IsFound-if d ((len == 4) && bytes_eq (take 4 start) (bool_text true)) (some (bool true)) _ tt
        (IsFound-if d ((len == 5) && bytes_eq (take 5 start) (bool_text false)) (some (bool false))
          _ tt
          (IsFound-if d ((len == 4) && bytes_eq (take 4 start) null_text) (some null) _ tt (
            IsFound-if d ((char_at 0 start == b'-') || is_digit (char_at 0 start)) _ none
              (number_node-IsFound start len (check_number (take len start))) tt))))
