-- ===== src/Toml/Ports.antt =====
-- Port entries in toml.js: a port ("8080") or a list of ports and ranges ("6000-6006,6007").
pub mod Count
pub mod Names
pub mod Single
pub mod Written
use frp_manager.Base.{
  ℕ, zero, suc, ◌+◌, ◌-◌, Bool, ◌&&◌, ◌||◌, List, [], ◌∷◌, ◌++◌, Text, ltb, leb, ◌==◌,
  if◌then◌else◌, length, every, some_of, is_space, take, without, split,
}
use frp_manager.Base.Decimal.{decimal, is_digit, number_of}

-- `\d{1,5}`
abbrev pub is_port_text : Text → Bool
is_port_text s = leb 1 (length s) && leb (length s) 5 && every is_digit s

-- `\d{1,5}(-\d{1,5})?`, over the text split at its dashes
unfoldable pub is_port_part : Text → Bool
unfolding split
is_port_part part = let sides = split b'-' part in leb (length sides) 2 && every is_port_text sides

-- `PORT_SPEC_RE`: such parts between commas
unfoldable pub is_port_spec : Text → Bool
unfolding split is_port_part
is_port_spec text = every is_port_part (split b',' text)

-- `const [a, b = a] = part.split('-').map(Number)`
pub record Range : Type 0 where
  pub first : ℕ
  pub last : ℕ

abbrev sides_range : List Text → Range
sides_range [] = record { first = 0; last = 0 }
sides_range (a ∷ []) = record { first = number_of a; last = number_of a }
sides_range (a ∷ b ∷ _) = record { first = number_of a; last = number_of b }

unfoldable pub part_range : Text → Range
unfolding split
part_range part = sides_range (split b'-' part)

-- `a < 1 || b > 65535 || a > b`
abbrev pub out_of_range : Range → Bool
out_of_range r = ltb r.first 1 || ltb 65535 r.last || ltb r.last r.first

-- the loop of `portSpecCount`
count_from : ℕ → List Text → ℕ
count_from total [] = total
count_from total (part ∷ parts) =
    let r = part_range part in
    let rest = count_from (total + (r.last - r.first + 1)) parts in
    if out_of_range r then 0 else rest

-- `portSpecCount`: the number of ports of an entry, 0 if it is invalid
unfoldable pub port_spec_count : Text → ℕ
unfolding count_from is_port_spec part_range
port_spec_count spec =
    let text = without is_space spec in
    if is_port_spec text then count_from 0 (split b',' text) else 0

-- `isPortRange`
unfoldable pub is_port_range : Text → Bool
is_port_range spec = some_of (λ c. c == b'-' || c == b',') spec

abbrev pub max_names : ℕ
max_names = 65535

-- the inner loop of `rangeNames`: `rounds` ports from `port` on, while there is room
names_of_range : Text → ℕ → ℕ → List Text → List Text
names_of_range base zero port names = names
names_of_range base (suc rounds) port names =
    let more =
      names_of_range base rounds (suc port) (names ++ (base ++ b'-' ∷ decimal port) ∷ []) in
    if ltb (length names) max_names then more else names

-- the rounds of `for (port = a; port <= b; …)`
abbrev pub width : Range → ℕ
width r = suc r.last - r.first

-- whether `Number` reads both sides of a part: a side of digits, or an empty one, which is 0
abbrev pub is_numeral_part : Text → Bool
unfolding split
is_numeral_part part = every (every is_digit) (take 2 (split b'-' part))

-- the outer loop: the comparison with NaN is false, and leaves no names of such a part
names_from : Text → List Text → List Text → List Text
unfolding names_of_range
names_from base [] names = names
names_from base (part ∷ parts) names = names_from base parts (
    if is_numeral_part part
    then names_of_range base (width (part_range part)) (part_range part).first names
    else names)

-- `rangeNames`: "name-<port>" for each port of an entry. The numerals other than digits that `Number`
-- reads, as "1e3" or "0x10", are as NaN here: they are not modelled.
unfoldable pub range_names : Text → Text → List Text
unfolding names_from split part_range
range_names base spec = names_from base (split b',' (without is_space spec)) []
