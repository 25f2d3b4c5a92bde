-- ===== src/Hjson/Reader.antt =====
-- src/hjson/hjson_parse.cpp: what `Reader` skips between the parts of a text.
pub use async.Hjson.Comments.{Reader, at, rest, step, char_at, peek, closes, after_slash, after_ws}
unfoldable pub use async.Hjson.Comments.{pass, pass_line, pass_block, skip_ws_upto}
use async.Base.{suc, Option, none, some, ◌==◌, if◌then◌else◌, length}
use async.Hjson.Returns.{Returns, skip_ws_upto-Returns}

-- The reader that a loop returns.
abbrev pub returned : (o : Option Reader) → Returns o → Reader
returned none h = absurd h
returned (some r) h = r

-- `skip_ws`, whose loop comes to an end at every reader.
unfoldable pub skip_ws : Reader → Reader
unfolding skip_ws_upto
skip_ws r = returned (skip_ws_upto (suc (length (rest r))) r) (skip_ws_upto-Returns r)

-- `skip_separator`
unfoldable pub skip_separator : Reader → Reader
unfolding skip_ws
skip_separator r =
    let next : Reader = skip_ws r in if peek next == b',' then skip_ws (step next) else next
