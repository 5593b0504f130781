-- ===== src/Toml/Block.antt =====
-- The blocks [[proxies]] and [[visitors]] as `parseToml` reads them.
use frp_manager.Base.{Option, List, Text}
use frp_manager.Base.Dict.{Dict}
use frp_manager.Toml.Match.{PortRange}

-- The comments of a key: whole lines before it, and the one at the end of its line.
pub record Note : Type 0 where
  pub before : List Text
  pub eol : Text

-- `notes`, under the key "[[]]" for the header line
abbrev pub Notes : Type 0
Notes = Dict Note

pub record Block : Type 0 where
  pub values : Dict Text
  pub raw : Dict Text
  pub order : List Text
  pub comments : List Text
  pub notes : Notes
  pub range : Option PortRange
