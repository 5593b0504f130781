-- ===== src/Panel/Firewall/Sources.antt =====
-- The sources of a rule in firewall.js: sourceLabel, and the text in which they are edited,
-- sourcesToText and textToSources.
pub mod RoundTrip
use frp_manager.Base.{
  ℕ, Bool, true, false, not, ◌&&◌, ◌||◌, Option, none, some, List, [], ◌∷◌, ◌++◌, Text, ◌==◌,
  if◌then◌else◌, map, keep, is_empty, every, trim, trim_start, split, join, codes,
}
use frp_manager.Base.Decimal.{decimal, is_digit, number_of}

-- `cidr`, or `asn`: the number of an autonomous system, which is not 0 in a rule
pub data Origin : Type 0 where
  cidr : Text → Origin
  asn : ℕ → Origin

-- A source; a missing `note` is an empty one.
pub record Source : Type 0 where
  pub origin : Origin
  pub note : Text

-- `sourceLabel`
unfoldable pub source_label : Origin → Text
unfolding decimal
source_label (Origin.cidr c) = c
source_label (Origin.asn n) = codes "AS" ++ decimal n

-- one line of `sourcesToText`
unfoldable pub source_line : Source → Text
source_line s =
    let label = source_label s.origin in
    if is_empty s.note then label else label ++ (codes "  # " ++ s.note)

-- `sourcesToText`
unfoldable pub sources_to_text : List Source → Text
sources_to_text sources = join (codes "\n") (map source_line sources)

-- /^AS\s*(\d+)$/i
unfoldable pub system_of : Text → Option ℕ
system_of (a ∷ b ∷ s) =
    let digits = trim_start s in
    if (a == b'A' || a == b'a')
      && (b == b'S' || b == b's')
      && not (is_empty digits)
      && every is_digit digits
    then some (number_of digits)
    else none
system_of _ = none

-- the key of a value that is trimmed
unfoldable pub origin_of : Text → Origin
origin_of value = elim (system_of value) [ none ↦ Origin.cidr value | some n ↦ Origin.asn n ]

-- the source of a line that is split at `#`
unfoldable pub source_of : List Text → Source
source_of [] = record { origin = Origin.cidr []; note = [] }
source_of (addr ∷ notes) =
    let value = trim addr in
    record { origin = origin_of value; note = trim (join (codes "#") notes) }

-- `s.asn || s.cidr`
abbrev pub is_given : Source → Bool
is_given s = elim s.origin [ Origin.cidr c ↦ not (is_empty c) | Origin.asn n ↦ not (n == 0) ]

-- `textToSources`
unfoldable pub text_to_sources : Text → List Source
text_to_sources text = keep is_given (map (λ line. source_of (split b'#' line)) (split 10 text))
