-- ===== src/Toml/Match.antt =====
-- The regular expressions of toml.js that match template lines: each is a chain of steps that take
-- a part off the front of a text. None of them can match in two ways.
use frp_manager.Base.{
  ℕ, suc, zero, ◌-◌, Bool, true, false, Option, none, some, [], ◌∷◌, ◌++◌, Text, ◌==◌,
  if◌then◌else◌, length, drop, is_empty, ◌≡◌, ◌≢◌, arith, refl, is_space, starts_with, trim_start,
  codes, ◌>>=◌,
}

-- a literal
unfoldable pub eat : Text → Text → Option Text
unfolding starts_with
eat p s = if starts_with s p then some (drop (length p) s) else none

-- an optional literal, `(?:p)?`
unfoldable pub eat_if : Text → Text → Text
unfolding starts_with
eat_if p s = if starts_with s p then drop (length p) s else s

-- `\s+`
eat_spaces : Text → Option Text
unfolding trim_start
eat_spaces [] = none
eat_spaces (c ∷ s) = if is_space c then some (trim_start s) else none

-- `([^"]*)"`
quoted_rest : Text → Option (Text × Text)
quoted_rest [] = none
quoted_rest (c ∷ s) =
    if c == 34
    then some ([], s)
    else elim (quoted_rest s) [ none ↦ none | some (name, rest) ↦ some (c ∷ name, rest) ]

-- `"([^"]*)"`
eat_quoted : Text → Option (Text × Text)
unfolding eat quoted_rest
eat_quoted s = do t ← eat (codes "\"") s; quoted_rest t

-- `\{\{-?\s*`
eat_open : Text → Option Text
unfolding eat eat_if trim_start
eat_open s = do t ← eat (codes "{{") s; some (trim_start (eat_if (codes "-") t))

-- `\s*-?\}\}`
unfoldable pub eat_close : Text → Option Text
unfolding eat eat_if trim_start
eat_close s = eat (codes "}}") (eat_if (codes "-") (trim_start s))

-- The ports that a "range" line gives: the local ones, and the others, empty for a single range.
pub record PortRange : Type 0 where
  pub local : Text
  pub remote : Text

-- `parseNumberRangePair\s+"([^"]*)"\s+"([^"]*)"|parseNumberRange\s+"([^"]*)"`, and what follows it
eat_ranges : Text → Option (PortRange × Text)
unfolding eat eat_spaces eat_quoted
eat_ranges s = elim (eat (codes "parseNumberRangePair") s) [
  | some t ↦ do
    t₁ ← eat_spaces t
    first ← eat_quoted t₁
    t₂ ← eat_spaces first.1
    second ← eat_quoted t₂
    some (record { local = first.0; remote = second.0 }, second.1)
  | none ↦ do
    t ← eat (codes "parseNumberRange") s
    t₁ ← eat_spaces t
    first ← eat_quoted t₁
    some (record { local = first.0; remote = [] }, first.1)
]

-- `RANGE_LINE` at the start of a text, with the object that `parseToml` makes of its groups, and what
-- follows it
unfoldable pub range_front : Text → Option (PortRange × Text)
unfolding eat_open eat_close eat_ranges
range_front s = do
  t₁ ← eat_open s
  t₂ ← eat (codes "range") t₁
  t₃ ← eat_spaces t₂
  t₄ ← eat (codes "$_,") t₃
  t₅ ← eat (codes "$v") (trim_start t₄)
  t₆ ← eat (codes ":=") (trim_start t₅)
  ports ← eat_ranges (trim_start t₆)
  rest ← eat_close ports.1
  some (ports.0, rest)

-- `RANGE_RE`
unfoldable pub range_line : Text → Option PortRange
unfolding range_front
range_line s = do front ← range_front s; if is_empty front.1 then some front.0 else none

-- `END_RE`
unfoldable pub is_end_line : Text → Bool
unfolding eat_open eat_close
is_end_line s = elim (do t₁ ← eat_open s; t₂ ← eat (codes "end") t₁; eat_close t₂) [
  | none ↦ false
  | some rest ↦ is_empty rest
]

-- `LOOP_FIRST` and `LOOP_SECOND`, with `field` ".First" or ".Second"; the rest behind the match
unfoldable pub eat_loop : Text → Text → Option Text
unfolding eat eat_if trim_start
eat_loop field s = do
  t₁ ← eat (codes "{{") s
  t₂ ← eat (codes "$v") (trim_start t₁)
  eat (codes "}}") (trim_start (eat_if field t₂))

abbrev is_done : Option Text → Bool
is_done none = false
is_done (some rest) = is_empty rest

-- `s.replace(new RegExp(`-?${LOOP}$`), '')`: the first match that reaches the end of the text
unfoldable pub drop_loop : Text → Text → Text
unfolding eat_loop
drop_loop field [] = []
drop_loop field (c ∷ s) =
    if is_done (eat_loop field (eat_if (codes "-") (c ∷ s))) then [] else c ∷ drop_loop field s

-- `s.replace(new RegExp(LOOP, 'g'), by)`; the number counts the characters of a match still to pass
replace_loops_from : Text → Text → ℕ → Text → Text
replace_loops_from field by skip [] = []
replace_loops_from field by (suc skip) (c ∷ s) = replace_loops_from field by skip s
replace_loops_from field by zero (c ∷ s) = elim (eat_loop field (c ∷ s)) [
  | some rest ↦ by ++ replace_loops_from field by (length s - length rest) s
  | none ↦ c ∷ replace_loops_from field by zero s
]

unfoldable pub replace_loops : Text → Text → Text → Text
unfolding replace_loops_from eat_loop
replace_loops field by s = replace_loops_from field by zero s

-- `s.split(part).join(by)` for a text that is not empty
replace_from : Text → Text → ℕ → Text → Text
replace_from part by skip [] = []
replace_from part by (suc skip) (c ∷ s) = replace_from part by skip s
replace_from part by zero (c ∷ s) = elim (starts_with (c ∷ s) part) [
  | true ↦ by ++ replace_from part by (length part - 1) s
  | false ↦ c ∷ replace_from part by zero s
]

unfoldable pub replace_all : Text → Text → Text → Text
unfolding replace_from starts_with
replace_all part by s = replace_from part by zero s

range_test :
    range_line (codes "{{- range $_, $v := parseNumberRangePair \"6000-6001\" \"18850-18851\" }}")
    ≡ some (record { local = codes "6000-6001"; remote = codes "18850-18851" })
unfolding range_line
range_test = refl

drop_test : drop_loop (codes ".First") (codes "rg-{{ $v.First }}") ≡ codes "rg"
unfolding drop_loop
drop_test = refl

pub starts_other : (c d : ℕ) (s p : Text) → c ≢ d → starts_with (c ∷ s) (d ∷ p) ≡ false
unfolding starts_with
starts_other c d s p h = ground arith

eat_open-other : (c : ℕ) (s : Text) → c ≢ b'{' → eat_open (c ∷ s) ≡ none
unfolding eat_open eat
eat_open-other c s h = rw (starts_other c b'{' s (b'{' ∷ []) h)

-- A line that starts with no brace is no template line.
pub range_line-other : (c : ℕ) (s : Text) → c ≢ b'{' → range_line (c ∷ s) ≡ none
unfolding range_line range_front
range_line-other c s h = rw (eat_open-other c s h, range_front) refl

pub is_end_line-other : (c : ℕ) (s : Text) → c ≢ b'{' → is_end_line (c ∷ s) ≡ false
unfolding is_end_line
is_end_line-other c s h = rw (eat_open-other c s h, is_end_line)
