-- ===== src/Toml/Merge/Places.antt =====
-- Where `mergeConnection` of toml.js adds lines: above, outside, and what they read of the file.
use frp_manager.Base.{
  ℕ, zero, suc, Bool, false, not, ◌&&◌, ◌||◌, List, [], ◌∷◌, Text, leb, ltb, if◌then◌else◌,
  starts_with, trim, codes,
}
use frp_manager.Toml.Lines.{line_at, is_blank_line}
use frp_manager.Toml.Connection.{Scanned, tpl_closing}

abbrev pub depth_at : List ℕ → ℕ → ℕ
depth_at [] i = 0
depth_at (d ∷ ds) zero = d
depth_at (d ∷ ds) (suc i) = depth_at ds i

abbrev pub flag_at : List Bool → ℕ → Bool
flag_at [] i = false
flag_at (b ∷ bs) zero = b
flag_at (b ∷ bs) (suc i) = flag_at bs i

-- `isNote`
abbrev pub is_note : Text → Bool
unfolding trim starts_with
is_note l = starts_with (trim l) (codes "#") || starts_with (trim l) (codes "{{")

-- `passable` of line `q - 1`, here `q`
unfoldable pub passable : List Text → Scanned → ℕ → Bool → Bool
unfolding trim starts_with
passable lines s q blank =
    not (flag_at s.body q)
    && (is_note (line_at lines q) || (blank && is_blank_line (line_at lines q)))

-- `above`
unfoldable pub above : List Text → Scanned → ℕ → ℕ → Bool → ℕ
unfolding passable tpl_closing
above lines s zero base blank = zero
above lines s (suc q) base blank =
    let up = above lines s q base blank in
    if passable lines s q blank
      && not (tpl_closing (line_at lines q))
      && leb base (depth_at s.depth q)
    then up
    else suc q

-- `while (q > 0 && depth[q] > base) q -= 1`
unfoldable pub shallow : Scanned → ℕ → ℕ → ℕ
shallow s zero base = zero
shallow s (suc q) base =
    let up = shallow s q base in if ltb base (depth_at s.depth (suc q)) then up else suc q

-- `outside`
unfoldable pub outside_of : List Text → Scanned → ℕ → ℕ → Bool → ℕ
unfolding above shallow
outside_of lines s q base blank =
    if leb (depth_at s.depth q) base then q else above lines s (shallow s q base) base blank

-- `while (q > 0 && !lines[q - 1].trim()) q -= 1`
unfoldable pub above_blank : List Text → ℕ → ℕ
unfolding trim
above_blank lines zero = zero
above_blank lines (suc q) =
    let up = above_blank lines q in if is_blank_line (line_at lines q) then up else suc q
