-- ===== src/Toml/KeyPath.antt =====
-- Names of keys and tables in toml.js: keyPath.
use frp_manager.Base.{
  ◌≡◌, ◌≢◌, arith, ℕ, ◌-◌, Bool, true, false, ◌&&◌, ◌||◌, Option, none, some, List, [], ◌∷◌, ◌++◌,
  Text, ◌==◌, leb, if◌then◌else◌, length, slice, every, map, join, starts_with, ends_with, trim,
  codes,
}
use frp_manager.Toml.Scan.{Mode, outside, opened, advance, quote_mark, apostrophe}

-- The loop of `keyPath`: the segments between the dots outside quotes.
path_from : Mode → Text → Text → List Text
path_from m cur [] = cur ∷ []
path_from outside cur (c ∷ s) = elim (c == b'.') [
  | true ↦ cur ∷ path_from outside [] s
  | false ↦ path_from (opened c) (cur ++ c ∷ []) s
]
path_from m cur (c ∷ s) = path_from (advance m c) (cur ++ c ∷ []) s

-- `[\w-]`
abbrev pub is_name_char : ℕ → Bool
is_name_char c =
    (leb b'a' c && leb c b'z')
    || (leb b'A' c && leb c b'Z')
    || (leb b'0' c && leb c b'9')
    || c == b'_'
    || c == b'-'

-- what stands between two quotes `q`, if that is one character or more of the class `p`
unfoldable pub quoted_name : (ℕ → Bool) → ℕ → Text → Option Text
unfolding starts_with ends_with
quoted_name p q x =
    let name = slice x 1 (length x - 1) in
    if leb 3 (length x) && starts_with x (q ∷ []) && ends_with x (q ∷ []) && every p name
    then some name
    else none

-- `x.replace(/^(["'])([class]+)\1$/, '$2')`
unfoldable pub unquote_name : (ℕ → Bool) → Text → Text
unfolding quoted_name
unquote_name p x = elim (quoted_name p quote_mark x) [
  | some name ↦ name
  | none ↦ elim (quoted_name p apostrophe x) [ some name ↦ name | none ↦ x ]
]

-- `keyPath`: the path of a key or of a table name
unfoldable pub key_path : Text → Text
unfolding path_from unquote_name trim join
key_path s =
    join (codes ".") (map (λ x. unquote_name is_name_char (trim x)) (path_from outside [] s))

quoted_name-other : (p : ℕ → Bool) (q c : ℕ) (s : Text) → c ≢ q → quoted_name p q (c ∷ s) ≡ none
unfolding quoted_name starts_with
quoted_name-other p q c s h = ground arith

-- A name that starts with no quote is left as it is.
pub unquote_name-other :
    (p : ℕ → Bool) (c : ℕ) (s : Text)
    → c ≢ quote_mark
    → c ≢ apostrophe
    → unquote_name p (c ∷ s) ≡ c ∷ s
unfolding unquote_name
unquote_name-other p c s h k =
    rw (quoted_name-other p quote_mark c s h, quoted_name-other p apostrophe c s k, unquote_name)
