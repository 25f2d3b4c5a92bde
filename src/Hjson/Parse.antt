-- ===== src/Hjson/Parse.antt =====
-- src/hjson/hjson_parse.cpp: `HjsonParse`. A null pointer is the empty text.
use async.Base.{ℕ, suc, false, ◌||◌, [], ◌∷◌, ◌==◌, if◌then◌else◌, Bytes}
use async.Data.{DataNode}
use async.Hjson.Reader.{Reader, at, skip_ws}
use async.Hjson.Strings.{Outcome, ok, rejected, thrown, out_of_fuel}
use async.Hjson.Values.{k_max_depth, read_value, read_object}

-- `DataNode*`, or the exception that leaves the function.
pub data Parsed : Type 0 where
  parsed : DataNode → Parsed
  nullptr exception unfinished : Parsed

-- Nothing but white space and comments may follow; `otherwise` is what the code does then.
abbrev pub whole_at : DataNode → Parsed → Reader → Parsed
whole_at v otherwise (at b []) = parsed v
whole_at v otherwise (at b (c ∷ s)) = otherwise

abbrev pub whole : Parsed → Outcome DataNode → Parsed
whole otherwise (ok v r) = whole_at v otherwise (skip_ws r)
whole otherwise rejected = otherwise
whole otherwise thrown = exception
whole otherwise out_of_fuel = unfinished

module _ (strtod : Bytes → ℕ × ℕ) where
  -- At the first character behind white space and comments.
  abbrev pub parse_root : (text : Bytes) → Reader → Parsed
  parse_root text (at b []) = nullptr
  parse_root text (at b (c ∷ s)) =
      if (c == b'[') || (c == b'{')
      then whole nullptr (read_value strtod (suc k_max_depth) (at b (c ∷ s)))
      else (let single : Parsed =
            whole nullptr (read_value strtod (suc k_max_depth) (skip_ws (at [] text))) in
          whole single (read_object strtod (read_value strtod k_max_depth) false (at b (c ∷ s))))

  -- `HjsonParse`
  unfoldable pub hjson_parse : (text : Bytes) → Parsed
  unfolding read_value read_object skip_ws
  hjson_parse text = parse_root text (skip_ws (at [] text))
