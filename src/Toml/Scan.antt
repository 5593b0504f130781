-- ===== src/Toml/Scan.antt =====
-- The character scanners of toml.js: one pass over a text that knows whether it stands inside a
-- quoted string, behind a backslash of such a string, or inside a comment.
pub mod Inside
use frp_manager.Base.{
  ℕ, zero, suc, ◌-◌, Bool, true, false, ◌&&◌, ◌||◌, Option, none, some, [], ◌∷◌, Text, ◌==◌, ◌+◌,
  if◌then◌else◌, take, drop, same, starts_with, trim,
}

-- Where the scan stands: `quote` is null, '"' or "'"; `escape` is the place behind a backslash
-- inside '"', whose character is taken whatever it is; `comment` runs to the end of the line.
pub data Mode : Type 0 where
  outside basic escape literal comment : Mode

abbrev pub quote_mark : ℕ
quote_mark = 34

abbrev pub apostrophe : ℕ
apostrophe = 39

abbrev pub backslash : ℕ
backslash = 92

abbrev pub newline : ℕ
newline = 10

-- the mode behind a character that is read outside quotes and comments
abbrev pub opened : ℕ → Mode
opened c = if c == quote_mark then basic else if c == apostrophe then literal else outside

-- the mode behind a character that is read inside them
abbrev pub advance : Mode → ℕ → Mode
advance outside c = opened c
advance basic c = if c == backslash then escape else if c == quote_mark then outside else basic
advance escape c = basic
advance literal c = if c == apostrophe then outside else literal
advance comment c = if c == newline then outside else comment

-- `keyEnd`: the position of the "=" of a line, `none` for -1
unfoldable pub key_end_from : Mode → ℕ → Text → Option ℕ
key_end_from m i [] = none
key_end_from outside i (c ∷ s) =
    if c == b'#' then none else if c == b'=' then some i else key_end_from (opened c) (suc i) s
key_end_from m i (c ∷ s) = key_end_from (advance m c) (suc i) s

unfoldable pub key_end : Text → Option ℕ
unfolding key_end_from
key_end line = key_end_from outside 0 line

-- how many of the two places behind a closing delimiter hold its quote again
abbrev pub extra_quotes : ℕ → Text → ℕ
extra_quotes q [] = 0
extra_quotes q (a ∷ []) = if a == q then 1 else 0
extra_quotes q (a ∷ b ∷ s) = if a == q then (if b == q then 2 else 1) else 0

abbrev pub triple : ℕ → Text
triple q = q ∷ q ∷ q ∷ []

-- The loop of `multilineClose` over the characters behind the delimiter `d`, whose first character
-- is `q`; `i` is the index that is read, and the Boolean is set behind a backslash.
unfoldable pub close_from : Text → ℕ → Bool → ℕ → Text → Option ℕ
unfolding same starts_with
close_from d q skip i [] = none
close_from d q true i (c ∷ s) = close_from d q false (suc i) s
close_from d q false i (c ∷ s) =
    let escaped = same d (triple quote_mark) && (c == backslash) in
    let rest = close_from d q escaped (suc i) s in
    if escaped
    then rest
    else if starts_with (c ∷ s) d
    then some (i + extra_quotes q (drop 2 s) + 3)
    else rest

-- `multilineClose`: the index behind the delimiter that closes a multi-line string starting at 0
unfoldable pub multiline_close : Text → Option ℕ
unfolding close_from
multiline_close (a ∷ b ∷ c ∷ s) = close_from (a ∷ b ∷ c ∷ []) a false 3 s
multiline_close _ = none

abbrev pub opens_multiline : Text → Bool
opens_multiline s = starts_with s (triple quote_mark) || starts_with s (triple apostrophe)

-- The loop of `splitComment`: the position of the "#" that starts the end-of-line comment. The
-- second argument counts the characters of a multi-line string that are still to be passed.
unfoldable pub comment_from : Mode → ℕ → ℕ → Text → Option ℕ
unfolding multiline_close starts_with
comment_from m skip i [] = none
comment_from m (suc skip) i (c ∷ s) = comment_from m skip (suc i) s
comment_from outside zero i (c ∷ s) = elim (opens_multiline (c ∷ s)) [
  | true ↦ elim (multiline_close (c ∷ s)) [
    | none ↦ none
    | some end ↦ comment_from outside (end - 1) (suc i) s
  ]
  | false ↦ elim (c == b'#') [ true ↦ some i | false ↦ comment_from (opened c) zero (suc i) s ]
]
comment_from m zero i (c ∷ s) = comment_from (advance m c) zero (suc i) s

abbrev pub comment_at : Text → Option ℕ
unfolding comment_from
comment_at value = comment_from outside 0 0 value

-- `splitComment`: the value and its end-of-line comment
unfoldable pub split_comment : Text → Text × Text
unfolding comment_from trim
split_comment value = elim (comment_at value) [
  | none ↦ (trim value, [])
  | some i ↦ (trim (take i value), trim (drop i value))
]

-- `stripComment`
unfoldable pub strip_comment : Text → Text
unfolding split_comment
strip_comment value = (split_comment value).0
