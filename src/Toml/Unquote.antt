-- ===== src/Toml/Unquote.antt =====
-- Reading a raw TOML value in toml.js: unescapeBasic, multilineValue and unquote. `none` stands for
-- the RangeError that String.fromCodePoint raises.
pub mod Points
pub mod RoundTrip
use mathlib.Core.Option
use frp_manager.Base.{
  ℕ, zero, suc, ◌+◌, ◌-◌, ◌*◌, ◌/◌, ◌%◌, Bool, true, false, ◌&&◌, ◌||◌, Option, none, some, [], ◌∷◌,
  ◌++◌, Text, ◌==◌, ltb, leb, if◌then◌else◌, length, take, drop, slice, starts_with, ends_with,
  is_space, same, ◌>>=◌,
}
use frp_manager.Toml.Scan.{quote_mark, apostrophe, backslash, newline, triple, close_from}

-- The value of a hexadecimal digit.
unfoldable pub hex_value : ℕ → Option ℕ
hex_value c =
    if leb b'0' c && leb c b'9'
    then some (c - b'0')
    else if leb b'a' c && leb c b'f'
    then some (c - b'a' + 10)
    else if leb b'A' c && leb c b'F'
    then some (c - b'A' + 10)
    else none

-- `parseInt(…, 16)` of the first `k` characters, if all are hexadecimal digits; `acc` is read
unfoldable pub hex_run : ℕ → ℕ → Text → Option ℕ
hex_run zero acc s = some acc
hex_run (suc k) acc [] = none
hex_run (suc k) acc (c ∷ s) = do d ← hex_value c; hex_run k (acc * 16 + d) s

-- `{ b: '\b', t: '\t', … }[c] || c` for a character of `[btnfr"\\]`
unfoldable pub short_escape : ℕ → Option ℕ
short_escape c =
    if c == b'b'
    then some 8
    else if c == b't'
    then some 9
    else if c == b'n'
    then some 10
    else if c == b'f'
    then some 12
    else if c == b'r'
    then some 13
    else if c == quote_mark || c == backslash
    then some c
    else none

-- `String.fromCodePoint` up to 0x10ffff: one code unit, or two surrogates
pub code_units : ℕ → Text
code_units v =
    if ltb v 0x10000
    then v ∷ []
    else (0xd800 + (v - 0x10000) / 0x400) ∷ (0xdc00 + (v - 0x10000) % 0x400) ∷ []

count_while : (ℕ → Bool) → Text → ℕ
count_while p [] = 0
count_while p (c ∷ s) = if p c then suc (count_while p s) else 0

-- What the expression of `unescapeBasic` makes of the characters behind a backslash: no match, a
-- match of so many characters with its replacement, or a code point out of range.
pub data Escape : Type 0 where
  unmatched : Escape
  replaced : Text → ℕ → Escape
  range_error : Escape

-- `[ \t]*\n\s*`
line_continuation : Text → Escape
line_continuation s =
    let blanks = count_while (λ c. c == 32 || c == 9) s in
    if starts_with (drop blanks s) (newline ∷ [])
    then replaced [] (blanks + 1 + count_while is_space (drop (blanks + 1) s))
    else unmatched

long_escape : ℕ → Text → Escape
unfolding hex_run code_units line_continuation count_while
long_escape c s =
    if c == b'u'
    then (elim (hex_run 4 0 s) [ some v ↦ replaced (code_units v) 5 | none ↦ unmatched ])
    else if c == b'U'
    then (elim (hex_run 8 0 s) [
      | some v ↦ if leb v 0x10ffff then replaced (code_units v) 9 else range_error
      | none ↦ unmatched
    ])
    else line_continuation (c ∷ s)

unfoldable pub escape_at : Text → Escape
unfolding long_escape short_escape hex_value
escape_at [] = unmatched
escape_at (c ∷ s) = elim (short_escape c) [ some d ↦ replaced (d ∷ []) 1 | none ↦ long_escape c s ]

-- `unescapeBasic`; the first argument counts the characters of a match that are still to be passed
unescape_from : ℕ → Text → Option Text
unescape_from skip [] = some []
unescape_from (suc skip) (c ∷ s) = unescape_from skip s
unescape_from zero (c ∷ s) = elim (c == backslash) [
  | false ↦ Option.map (◌∷◌ c) (unescape_from zero s)
  | true ↦ elim (escape_at s) [
    | unmatched ↦ Option.map (◌∷◌ c) (unescape_from zero s)
    | replaced t n ↦ Option.map (◌++◌ t) (unescape_from n s)
    | range_error ↦ none
  ]
]

unfoldable pub unescape_basic : Text → Option Text
unfolding unescape_from escape_at
unescape_basic s = unescape_from zero s

-- `d[0]` of one of the two delimiters
abbrev first_of_delimiter : Text → ℕ
first_of_delimiter d = if same d (triple quote_mark) then quote_mark else apostrophe

-- the content of a multi-line string, up to its closing delimiter and without the line break that
-- follows the opening; `none` if `raw` is not such a string
unfoldable pub multiline_text : Text → Option Text
unfolding close_from
multiline_text raw =
    let d = take 3 raw in
    let body = drop 3 raw in
    if same d (triple quote_mark) || same d (triple apostrophe)
    then (elim (close_from d (first_of_delimiter d) false 0 body) [
      | none ↦ none
      | some end ↦
          let text = take (end - 3) body in
          some (if starts_with text (newline ∷ []) then drop 1 text else text)
    ])
    else none

-- `multilineValue`: `some none` for null
unfoldable pub multiline_value : Text → Option (Option Text)
unfolding multiline_text unescape_basic
multiline_value raw = elim (multiline_text raw) [
  | none ↦ some none
  | some text ↦
      if starts_with raw (triple quote_mark)
      then Option.map some (unescape_basic text)
      else some (some text)
]

abbrev between : ℕ → Text → Bool
between q raw = leb 2 (length raw) && starts_with raw (q ∷ []) && ends_with raw (q ∷ [])

-- `unquote`
unfoldable pub unquote : Text → Option Text
unfolding multiline_value
unquote raw = do
  ml ← multiline_value raw
  elim ml [
    | some text ↦ some text
    | none ↦
        if between quote_mark raw
        then unescape_basic (slice raw 1 (length raw - 1))
        else if between apostrophe raw
        then some (slice raw 1 (length raw - 1))
        else some raw
  ]
