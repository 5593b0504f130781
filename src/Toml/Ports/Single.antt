-- ===== src/Toml/Ports/Single.antt =====
-- `portSpecCount` on a single port.
use frp_manager.Base.{
  ℕ, ◌≤◌, true, false, [], ◌∷◌, Text, every, is_space, without, split, ◌≡◌, inl, inr, refl, arith,
  Bool-cases, ◌==◌,
}
use frp_manager.Base.Decimal.{is_digit, number_of}
use frp_manager.Toml.Ports.{
  is_port_text, is_port_part, is_port_spec, part_range, count_from, port_spec_count,
}

-- the digits of a port are no spaces, and neither commas nor dashes
without-digits : (v : Text) → every is_digit v ≡ true → without is_space v ≡ v
without-digits [] h = refl
without-digits (c ∷ v) h = ground (arith, without-digits v)

split-digits :
    (sep : ℕ) (v : Text) → is_digit sep ≡ false → every is_digit v ≡ true → split sep v ≡ v ∷ []
unfolding split
split-digits sep [] s h = refl
split-digits sep (c ∷ v) s h = elim (Bool-cases (c == sep)) [
  | inl e ↦ absurd (ground arith)
  | inr e ↦ rw (e, split-digits sep v s (ground arith)) refl
]

-- A text of one to five digits counts as one port where its number is from 1 to 65535.
pub port_spec_count_single :
    (v : Text)
    → is_port_text v ≡ true
    → 1 ≤ number_of v
    → number_of v ≤ 65535
    → port_spec_count v ≡ 1
unfolding port_spec_count is_port_spec is_port_part part_range count_from
port_spec_count_single v h lo hi =
    let digits : every is_digit v ≡ true = ground arith in
    rw
      (without-digits v digits, split-digits b',' v refl digits, split-digits b'-' v refl digits, h)
      (ground arith)
