-- ===== src/Toml/Ports/Count.antt =====
-- What `portSpecCount` returns.
use frp_manager.Base.{
  ℕ, ◌+◌, ◌-◌, ◌≤◌, Bool, true, not, List, [], ◌∷◌, Text, if◌then◌else◌, every, is_space, without,
  split, ◌≡◌, ◌≢◌, inl, inr, refl, arith, Bool-cases, All,
}
use frp_manager.Toml.Ports.{
  part_range, out_of_range, width, is_port_part, count_from, port_spec_count,
}

unfoldable pub parts_of : Text → List Text
unfolding split
parts_of spec = split b',' (without is_space spec)

abbrev in_range : Text → Bool
in_range part = not (out_of_range (part_range part))

-- the ports of all parts, counted one part after the other
abbrev pub total_width : List Text → ℕ
total_width [] = 0
total_width (part ∷ parts) = width (part_range part) + total_width parts

-- A part that is a port or two ports in order, from 1 to 65535.
pub record IsValidPart (part : Text) : Type 0 where
  pub written : is_port_part part ≡ true
  pub positive : 1 ≤ (part_range part).first
  pub ordered : (part_range part).first ≤ (part_range part).last
  pub bounded : (part_range part).last ≤ 65535

count_from_lem :
    (total : ℕ) (parts : List Text)
    → count_from total parts ≡ (if every in_range parts then total + total_width parts else 0)
unfolding count_from
count_from_lem total [] = ground arith
count_from_lem total (part ∷ parts) =
    let r = part_range part in ground (arith, count_from_lem (total + (r.last - r.first + 1)) parts)

every-IsValidPart :
    (parts : List Text)
    → every is_port_part parts ≡ true
    → every in_range parts ≡ true
    → All IsValidPart parts
every-IsValidPart [] h k = tt
every-IsValidPart (part ∷ parts) h k = (
  record {
    written = ground arith;
    positive = ground arith;
    ordered = ground arith;
    bounded = ground arith;
  },
  every-IsValidPart parts (ground arith) (ground arith),
)

IsValidPart-every :
    (parts : List Text)
    → All IsValidPart parts
    → (every is_port_part parts ≡ true) × (every in_range parts ≡ true)
IsValidPart-every [] h = (refl, refl)
IsValidPart-every (part ∷ parts) (v, h) =
    let (written, ranged) = IsValidPart-every parts h in (ground arith, ground arith)

-- An entry whose parts are all valid has as many ports as its ranges together.
pub port_spec_count_valid :
    (spec : Text)
    → All IsValidPart (parts_of spec)
    → port_spec_count spec ≡ total_width (parts_of spec)
unfolding port_spec_count parts_of
port_spec_count_valid spec h =
    let (written, ranged) = IsValidPart-every (parts_of spec) h in
    rw (written, count_from_lem 0 (parts_of spec), ranged) (omega arith)

-- Any other entry has none: a positive count means that every part is valid.
pub port_spec_count_invalid :
    (spec : Text) → port_spec_count spec ≢ 0 → All IsValidPart (parts_of spec)
unfolding port_spec_count parts_of
port_spec_count_invalid spec h = elim (Bool-cases (every is_port_part (parts_of spec))) [
  | inl written ↦ elim (Bool-cases (every in_range (parts_of spec))) [
    | inl ranged ↦ every-IsValidPart (parts_of spec) written ranged
    | inr out ↦ absurd (h (rw (written, count_from_lem 0 (parts_of spec), out)))
  ]
  | inr bad ↦ absurd (h (rw bad))
]
