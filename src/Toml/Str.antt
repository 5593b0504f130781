-- ===== src/Toml/Str.antt =====
-- `str` of toml.js: writing a one-line TOML string.
use frp_manager.Base.{
  ℕ, zero, suc, ◌+◌, ◌-◌, ◌/◌, ◌%◌, Bool, ◌||◌, Option, none, some, [], ◌∷◌, ◌++◌, Text, ◌==◌, ltb,
  leb, if◌then◌else◌, drop, starts_with, codes,
}
use frp_manager.Toml.Scan.{quote_mark, backslash}

-- `[\u0000-\u001f\u007f]`
abbrev pub is_control : ℕ → Bool
is_control c = leb c 0x1f || c == 0x7f

-- The lazy match of `\{\{[^\u0000-\u001f\u007f]*?\}\}` behind the two opening braces: its length,
-- `n` characters being read.
action_close : ℕ → Text → Option ℕ
action_close n [] = none
action_close n (c ∷ s) =
    if starts_with (c ∷ s) (codes "}}")
    then some (n + 2)
    else if is_control c
    then none
    else action_close (suc n) s

-- the length of the template action {{ … }} at the start of a text
unfoldable pub action_length : Text → Option ℕ
unfolding action_close
action_length s = if starts_with s (codes "{{") then action_close 2 (drop 2 s) else none

-- a digit of `toString(16)`
abbrev pub hex_digit : ℕ → ℕ
hex_digit d = if ltb d 10 then b'0' + d else b'a' + (d - 10)

-- the table of `esc`: the character that follows the backslash
unfoldable pub named_escape : ℕ → Option ℕ
named_escape c =
    if c == backslash || c == quote_mark
    then some c
    else if c == 8
    then some b'b'
    else if c == 9
    then some b't'
    else if c == 10
    then some b'n'
    else if c == 12
    then some b'f'
    else if c == 13
    then some b'r'
    else none

-- `esc` of one character; `padStart(4, '0')` of the code of a control character, which is below 256
unfoldable pub escape_char : ℕ → Text
unfolding named_escape
escape_char c = elim (named_escape c) [
  | some k ↦ backslash ∷ k ∷ []
  | none ↦
      if is_control c
      then backslash ∷ b'u' ∷ b'0' ∷ b'0' ∷ hex_digit (c / 16) ∷ hex_digit (c % 16) ∷ []
      else c ∷ []
]

-- The text between the quotes of `str`: template actions as they are, all else escaped. The first
-- argument counts the characters of an action that are still to be copied.
unfoldable pub str_from : ℕ → Text → Text
unfolding escape_char action_length
str_from skip [] = []
str_from (suc skip) (c ∷ s) = c ∷ str_from skip s
str_from zero (c ∷ s) = elim (action_length (c ∷ s)) [
  | some n ↦ c ∷ str_from (n - 1) s
  | none ↦ escape_char c ++ str_from zero s
]

-- `str`
unfoldable pub str : Text → Text
unfolding str_from
str value = quote_mark ∷ (str_from zero value ++ quote_mark ∷ [])
