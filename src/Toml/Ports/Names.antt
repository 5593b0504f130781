-- ===== src/Toml/Ports/Names.antt =====
-- The names that `rangeNames` makes, against a list made with no bound.

use frp_manager.Base.{
  ℕ, zero, suc, ◌≤◌, true, every, split, All, List, [], ◌∷◌, ◌++◌, Text, ltb, length, take,
  if◌then◌else◌, length-append, length-take, take_all, take-append_of_le, append_assoc, append-nil,
  min, ◌≡◌, ◌≢◌, inl, inr, refl, sym, arith, Bool-cases, ap, ◌∙◌,
}
use frp_manager.Base.Decimal.{decimal, is_digit}
use frp_manager.Toml.Ports.{
  is_port_text, is_port_part, part_range, is_numeral_part, width, max_names, names_of_range,
  names_from, range_names, port_spec_count,
}
use frp_manager.Toml.Ports.Count.{
  IsValidPart, parts_of, total_width, port_spec_count_valid, port_spec_count_invalid,
}

-- "base-<port>" for `rounds` ports from `port` on
abbrev pub port_names : Text → ℕ → ℕ → List Text
port_names base zero port = []
port_names base (suc rounds) port =
    (base ++ b'-' ∷ decimal port) ∷ port_names base rounds (suc port)

-- the names of the ports of every part, in order
abbrev pub all_names : Text → List Text → List Text
all_names base [] = []
all_names base (part ∷ parts) =
    (if is_numeral_part part
      then port_names base (width (part_range part)) (part_range part).first
      else [])
    ++ all_names base parts

take-take-append {ℓ} :
    {A : Type ℓ} (n : ℕ) (xs ys : List A) → take n (take n xs ++ ys) ≡ take n (xs ++ ys)
take-take-append zero xs ys = refl
take-take-append (suc n) [] ys = refl
take-take-append (suc n) (x ∷ xs) ys = rw (take-take-append n xs ys)

names_of_range_lem :
    (base : Text) (rounds port : ℕ) (names : List Text)
    → length names ≤ max_names
    → names_of_range base rounds port names ≡ take max_names (names ++ port_names base rounds port)
unfolding names_of_range
names_of_range_lem base zero port names h = rw append-nil (sym (take_all max_names names h))
names_of_range_lem base (suc rounds) port names h =
    elim (Bool-cases (ltb (length names) max_names)) [
      | inl room ↦ rw room (
          names_of_range_lem base rounds (suc port) (names ++ (base ++ b'-' ∷ decimal port) ∷ [])
            (ground (arith, length-append names ((base ++ b'-' ∷ decimal port) ∷ [])))
          ∙ ap (take max_names) (append_assoc names _ _))
      | inr full ↦
          rw full
            (sym (take-append_of_le max_names names _ (ground arith) ∙ take_all max_names names h))
    ]

names_from_lem :
    (base : Text) (parts names : List Text)
    → length names ≤ max_names
    → names_from base parts names ≡ take max_names (names ++ all_names base parts)
unfolding names_from
names_from_lem base [] names h = rw append-nil (sym (take_all max_names names h))
names_from_lem base (part ∷ parts) names h = elim (Bool-cases (is_numeral_part part)) [
  | inr other ↦ rw other (names_from_lem base parts names h)
  | inl numeral ↦
      let r = part_range part in
      let here = port_names base (width r) r.first in
      rw numeral (
        rw (names_of_range_lem base (width r) r.first names h) (
          names_from_lem base parts (take max_names (names ++ here))
            (omega (arith, length-take max_names (names ++ here)))
          ∙ take-take-append max_names (names ++ here) (all_names base parts)
          ∙ ap (take max_names) (append_assoc names here _)))
]

-- `rangeNames` gives the names of all the ports of an entry in order, and stops at 65535 names.
pub range_names_lem :
    (base spec : Text) → range_names base spec ≡ take max_names (all_names base (parts_of spec))
unfolding range_names parts_of
range_names_lem base spec = names_from_lem base (parts_of spec) [] (omega arith)

length-port_names : (base : Text) (rounds port : ℕ) → length (port_names base rounds port) ≡ rounds
length-port_names base zero port = refl
length-port_names base (suc rounds) port = ap suc (length-port_names base rounds (suc port))

-- the sides of a valid part are digits
ports-digits :
    (sides : List Text)
    → every is_port_text sides ≡ true
    → every (every is_digit) (take 2 sides) ≡ true
ports-digits [] h = refl
ports-digits (a ∷ []) h = ground arith
ports-digits (a ∷ b ∷ sides) h = ground arith

IsValidPart-is_numeral_part : (part : Text) → IsValidPart part → is_numeral_part part ≡ true
unfolding is_port_part is_numeral_part
IsValidPart-is_numeral_part part valid =
    ports-digits (split b'-' part) (ground (arith, valid.written))

length-all_names :
    (base : Text) (parts : List Text)
    → All IsValidPart parts
    → length (all_names base parts) ≡ total_width parts
length-all_names base [] h = refl
length-all_names base (part ∷ parts) (valid, h) =
    let r = part_range part in
    rw (IsValidPart-is_numeral_part part valid) (
      omega (
        arith,
        length-append (port_names base (width r) r.first) (all_names base parts),
        length-port_names base (width r) r.first,
        length-all_names base parts h,
      ))

-- A valid entry gets one name for each port that `portSpecCount` counts, up to 65535 names.
pub length-range_names :
    (base spec : Text)
    → port_spec_count spec ≢ 0
    → length (range_names base spec) ≡ min max_names (port_spec_count spec)
length-range_names base spec h =
    rw (port_spec_count_valid spec (port_spec_count_invalid spec h), range_names_lem base spec)
      (length-take max_names (all_names base (parts_of spec))
        ∙ ap (min max_names)
            (length-all_names base (parts_of spec) (port_spec_count_invalid spec h)))
