-- ===== src/Toml/Lines/Joined.antt =====
-- The lines of a text of toml.js that has no carriage return, joined again.
use frp_manager.Base.{
  ℕ, true, false, not, ◌&&◌, every, List, [], ◌∷◌, Text, ◌==◌, add_part, join, includes,
  starts_with, codes, All, ◌≡◌, ◌≢◌, ◌∙◌, refl, ap, arith, Bool-cases, inl, inr,
}
use frp_manager.Toml.Lines.{lone_cr, split_lines}

abbrev pub IsUnix : Text → Type 0
IsUnix s = All (λ c. c ≢ 13) s

pub lone_cr-IsUnix : (s : Text) → IsUnix s → lone_cr s ≡ s
unfolding lone_cr
lone_cr-IsUnix [] h = refl
lone_cr-IsUnix (c ∷ s) (h, hs) =
    let other : (c == 13) ≡ false = ground arith in rw (other, lone_cr-IsUnix s hs) refl

split_lines_parts : (s : Text) → (p : Text) × (ps : List Text) × (split_lines s ≡ p ∷ ps)
unfolding split_lines
split_lines_parts [] = ([], [], refl)
split_lines_parts (c ∷ s) =
    let (p, ps, e) = split_lines_parts s in
    elim (Bool-cases (c == 13 && starts_with s (codes "\n"))) [
      | inl pair ↦ (p, ps, rw (pair, e) refl)
      | inr joined ↦ elim (Bool-cases (c == 10)) [
        | inl feed ↦ ([], p ∷ ps, rw (joined, feed, e) refl)
        | inr other ↦ (c ∷ p, ps, rw (joined, other, e) refl)
      ]
    ]

join-add_part :
    (c : ℕ) (p : Text) (ps : List Text)
    → join (codes "\n") (add_part c (p ∷ ps)) ≡ c ∷ join (codes "\n") (p ∷ ps)
unfolding join
join-add_part c p [] = refl
join-add_part c p (q ∷ ps) = refl

pub join-split_lines : (s : Text) → IsUnix s → join (codes "\n") (split_lines s) ≡ s
unfolding join split_lines
join-split_lines [] h = refl
join-split_lines (c ∷ s) (h, hs) =
    let other : (c == 13) ≡ false = ground arith in
    let (p, ps, e) = split_lines_parts s in
    let rest : join (codes "\n") (p ∷ ps) ≡ s = rw e at (join-split_lines s hs) in
    elim (Bool-cases (c == 10)) [
      | inl feed ↦
          let newline : c ≡ 10 = ground arith in
          rw (other, feed, e, split_lines) (rw newline (ap (◌∷◌ 10) rest))
      | inr inside ↦ rw (other, inside, e, split_lines) (join-add_part c p ps ∙ ap (◌∷◌ c) rest)
    ]

pub includes-IsUnix : (s : Text) → IsUnix s → includes s (codes "\r\n") ≡ false
unfolding includes starts_with
includes-IsUnix [] h = refl
includes-IsUnix (c ∷ s) (h, hs) = ground (arith, includes-IsUnix s hs)

-- a decision for texts that are given
pub every-IsUnix : (s : Text) → every (λ c. not (c == 13)) s ≡ true → IsUnix s
every-IsUnix [] h = tt
every-IsUnix (c ∷ s) h = ((λ e. ground arith), every-IsUnix s (ground arith))
