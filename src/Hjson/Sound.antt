-- ===== src/Hjson/Sound.antt =====
-- What `HjsonParse` returns for any text.
use async.Base.{
  none, ℕ, suc, ◌^◌, ◌≤◌, ◌<◌, ◌≡◌, ◌≢◌, subst, Bool, true, false, ◌||◌, [], ◌∷◌, ◌==◌,
  if◌then◌else◌, Bytes, length, All, arith,
}
use async.Data.{DataNode}
use async.Hjson.Reader.{Reader, at, rest, skip_ws, skip_ws_upto}
use async.Hjson.Returns.{skip_ws_upto-ne_none}
use async.Hjson.Strings.{Outcome, ok, rejected, thrown, out_of_fuel}
use async.Hjson.Values.{k_max_depth, read_value}
use async.Hjson.Parse.{
  Parsed, parsed, nullptr, exception, unfinished, whole_at, whole, parse_root, hjson_parse,
}
use async.Hjson.Skips.{Left, Left-skip_ws}
use async.Hjson.Content.{All-unit}
use async.Hjson.Ensures.{Ensures, holds, refused, raised, Ensures-weaken}
use async.Hjson.Document.{IsDocument}
use async.Hjson.Scalars.{is_control}
use async.Hjson.Members.{read_object-Ensures, read_value-Ensures}

-- A result of the code, an exception only when `T` holds.
abbrev Returns : (T : Type 0) → Parsed → Type 0
Returns T (parsed v) = IsDocument (suc k_max_depth) v
Returns T nullptr = Unit
Returns T exception = T
Returns T unfinished = ⊥

module _ (T : Type 0) where
  Returns-whole_at :
      (v : DataNode) (otherwise : Parsed) (r : Reader)
      → IsDocument (suc k_max_depth) v
      → Returns T otherwise
      → Returns T (whole_at v otherwise r)
  Returns-whole_at v otherwise (at b []) h k = h
  Returns-whole_at v otherwise (at b (c ∷ s)) h k = k

  Returns-whole :
      (otherwise : Parsed) (o : Outcome DataNode)
      → Returns T otherwise
      → Ensures T (λ v r. IsDocument (suc k_max_depth) v) o
      → Returns T (whole otherwise o)
  Returns-whole otherwise (ok v r) h (holds k) = Returns-whole_at v otherwise (skip_ws r) k h
  Returns-whole otherwise rejected h refused = h
  Returns-whole otherwise thrown h (raised t) = t
  Returns-whole otherwise out_of_fuel h e = elim e [ ]

  Returns-if :
      (b : Bool) (p q : Parsed) → Returns T p → Returns T q → Returns T (if b then p else q)
  Returns-if true p q h k = h
  Returns-if false p q h k = k

module _ (strtod : Bytes → ℕ × ℕ) (P : ℕ → Type 0) (T : Type 0) (text : Bytes)
    (blame : (c : ℕ) → P c → is_control c ≡ true → T) (large : 2 ^ 63 ≤ length text → T)
    (good : All P text) where
  value-Returns :
      (otherwise : Parsed) (r : Reader)
      → Left P text r
      → Returns T otherwise
      → Returns T (whole otherwise (read_value strtod (suc k_max_depth) r))
  value-Returns otherwise r l h = Returns-whole T otherwise _ h (
      Ensures-weaken
        (read_value-Ensures strtod P T (length text) blame large (suc k_max_depth) r l.good l.short)
        (λ v r1 w. w.document))

  parse_root-Returns : (r : Reader) → Left P text r → Returns T (parse_root strtod text r)
  parse_root-Returns (at b []) l = tt
  parse_root-Returns (at b (c ∷ s)) l =
      Returns-if T ((c == b'[') || (c == b'{')) _ _ (value-Returns nullptr (at b (c ∷ s)) l tt) (
        Returns-whole T _ _
          (value-Returns nullptr (skip_ws (at [] text)) (Left-skip_ws (at [] text) good) tt)
          (Ensures-weaken
            (read_object-Ensures strtod P T (length text) blame large k_max_depth
              (λ r. read_value strtod k_max_depth r)
              (λ r. read_value-Ensures strtod P T (length text) blame large k_max_depth r) false
              (at b (c ∷ s)) l.good l.short)
            (λ v r k. k.0)))

  hjson_parse-Returns : Returns T (hjson_parse strtod text)
  unfolding hjson_parse
  hjson_parse-Returns = parse_root-Returns (skip_ws (at [] text)) (Left-skip_ws (at [] text) good)

module _ (strtod : Bytes → ℕ × ℕ) (text : Bytes) where
  any_text : Returns Unit (hjson_parse strtod text)
  any_text =
      hjson_parse-Returns strtod (λ c. Unit) Unit text (λ c p e. tt) (λ h. tt) (All-unit text)

  -- The parser comes to an end on every text, whatever `strtod` answers: it returns a node or null, or
  -- it throws. So does the loop that passes white space and comments, with those inside it, at every
  -- reader. The fuel of the loops, the length of the text that is left plus one, is enough.
  pub hjson_parse-ne_unfinished :
      (hjson_parse strtod text ≢ unfinished)
      × ((r : Reader) → skip_ws_upto (suc (length (rest r))) r ≢ none)
  hjson_parse-ne_unfinished = ((λ e. subst (Returns Unit) e any_text), skip_ws_upto-ne_none)

  -- A tree that the parser returns for any text has at most 257 containers inside each other, distinct
  -- keys in each object, integers of 64 bits, finite floats, and no int map or binary, whatever
  -- `strtod` answers.
  pub hjson_parse-IsDocument :
      (v : DataNode) → hjson_parse strtod text ≡ parsed v → IsDocument (suc k_max_depth) v
  hjson_parse-IsDocument v e = subst (Returns Unit) e any_text

  -- Nothing is thrown for a text of fewer than 2 ^ 63 characters without control characters, white
  -- space and NUL aside.
  pub hjson_parse-ne_exception :
      All (λ c. is_control c ≡ false) text
      → length text < 2 ^ 63
      → hjson_parse strtod text ≢ exception
  hjson_parse-ne_exception plain small e = subst (Returns ⊥) e (
      hjson_parse-Returns strtod (λ c. is_control c ≡ false) ⊥ text (λ c p q. cc) (λ h. omega arith)
        plain)
