-- ===== src/Toml/Merge/Raws.antt =====
-- What `mergeConnection` reads: generatedRaws, entryValue, inlineOpen and sharedSegs of toml.js.
use frp_manager.Base.{
  ℕ, suc, ◌-◌, not, ◌&&◌, ◌||◌, Option, none, some, List, [], ◌∷◌, ◌++◌, Text, ◌==◌, if◌then◌else◌,
  length, take, drop, is_empty, is_space, split, same, starts_with, trim, slice, codes,
}
use frp_manager.Base.Dict.{Dict, store}
use frp_manager.Toml.Scan.{key_end, split_comment, multiline_close}
use frp_manager.Toml.Value.{delimiter}

abbrev pub under : Text → Text → Text
under section key = if is_empty section then key else section ++ b'.' ∷ key

-- what a line sets
unfoldable pub set_raw : Text → Text → Dict Text → Dict Text
set_raw section tr out = elim (key_end tr) [
  | none ↦ out
  | some eq ↦
      if eq == 0
      then out
      else store (under section (trim (take eq tr))) (split_comment (drop (suc eq) tr)).0 out
]

-- The loop of `generatedRaws`. A Map keeps the place of a key that is set again.
unfoldable pub raws_from : Text → Dict Text → List Text → Dict Text
unfolding trim starts_with
raws_from section out [] = out
raws_from section out (line ∷ lines) =
    let tr = trim line in
    let plain = is_empty tr || starts_with tr (codes "#") in
    let header = starts_with tr (codes "[") in
    raws_from (if not plain && header then slice tr 1 (length tr - 1) else section)
      (if plain || header then out else set_raw section tr out) lines

-- `generatedRaws`
unfoldable pub generated_raws : Text → Dict Text
unfolding raws_from split
generated_raws text = raws_from [] [] (split 10 text)

-- `entryValue`
unfoldable pub entry_value : Text → ℕ → Text × Text
unfolding split_comment multiline_close trim starts_with
entry_value text eq =
    let rest = trim (drop (suc eq) text) in
    if is_empty (delimiter rest) then split_comment rest else elim (multiline_close rest) [
      | none ↦ split_comment rest
      | some close ↦ (take close rest, (split_comment (drop close rest)).1)
    ]

-- the index of the first character that is no white space
first_char : ℕ → Text → Option (ℕ × ℕ)
first_char i [] = none
first_char i (c ∷ s) = let rest = first_char (suc i) s in if is_space c then rest else some (i, c)

-- `inlineOpen`, `none` for -1
unfoldable pub inline_open : Text → ℕ → Option ℕ
unfolding first_char
inline_open text eq = elim (first_char (suc eq) (drop (suc eq) text)) [
  | none ↦ none
  | some (i, c) ↦ if c == b'{' then some i else none
]

shared : List Text → List Text → ℕ
unfolding same
shared (x ∷ xs) (y ∷ ys) = let rest = shared xs ys in if same x y then suc rest else 0
shared xs ys = 0

-- `sharedSegs`
unfoldable pub shared_segs : Text → Text → ℕ
unfolding shared split
shared_segs a b = shared (split b'.' a) (split b'.' b)
