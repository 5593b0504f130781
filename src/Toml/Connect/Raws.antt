-- ===== src/Toml/Connect/Raws.antt =====
-- What `generatedRaws` of toml.js reads in a connection part that `generateServer` or
-- `generateClient` has written.
use frp_manager.Base.{
  ℕ, zero, Bool, true, false, not, List, [], ◌∷◌, ◌++◌, map, Text, ◌==◌, every, is_empty,
  starts_with, trim, trim_start, trim_end, split, join, codes, append_assoc, All, ◌≡◌, ◌⊎◌, ◌∙◌,
  inl, inr, refl, ap, arith,
}
use frp_manager.Base.Dict.{Dict, store}
use frp_manager.Base.TextLaws.{trim_end-concat, slice-quoted}
use frp_manager.Toml.Scan.Inside.{IsPlain}
use frp_manager.Toml.Unquote.RoundTrip.{in_actions}
use frp_manager.Toml.Str.{str}
use frp_manager.Toml.Generate.{pair_line}
use frp_manager.Toml.Parse.Line.{
  is_key_char, key_char_facts, IsRaw, trim-line, key_end-line, take-line, drop-line, trim_key,
}
use frp_manager.Toml.Parse.Bare.{IsRaw-bare}
use frp_manager.Toml.Parse.Written.{IsRaw-str}
use frp_manager.Toml.Merge.Raws.{under, set_raw, raws_from, generated_raws}
use frp_manager.Toml.Connect.{
  Line, gap, title, section, pair, line_text, ServerForm, server_lines, written_lines,
  generate_server,
}

-- no line break
abbrev pub is_single : Text → Bool
is_single s = every (λ c. not (c == 10)) s

-- A value as the form holds it: a string that `str` has written, with no backslash and no double
-- quote in its template actions, or a bare value of the characters of bare keys and dots.
abbrev pub IsValue : Text → Type 0
IsValue raw =
    ((s : Text) × (raw ≡ str s) × All IsPlain (in_actions zero s))
    ⊎ ((is_empty raw ≡ false) × (every is_key_char raw ≡ true))

-- A line that stays one line when it is written.
abbrev pub IsLine : Line → Type 0
IsLine gap = Unit
IsLine (title text) = (starts_with text (codes "#") ≡ true) × (is_single text ≡ true)
IsLine (section name) = is_single name ≡ true
IsLine (pair key raw) =
    (is_empty key ≡ false) × (every is_key_char key ≡ true) × (is_single raw ≡ true) × IsValue raw

-- the pairs of the lines in order, with the table of each
abbrev pub pairs_of : Text → Dict Text → List Line → Dict Text
pairs_of table out [] = out
pairs_of table out (gap ∷ ls) = pairs_of table out ls
pairs_of table out (title text ∷ ls) = pairs_of table out ls
pairs_of table out (section name ∷ ls) = pairs_of name out ls
pairs_of table out (pair key raw ∷ ls) = pairs_of table (store (under table key) raw out) ls

split-line : (x y : Text) → is_single x ≡ true → split 10 (x ++ 10 ∷ y) ≡ x ∷ split 10 y
unfolding split
split-line [] y h = refl
split-line (c ∷ x) y h = rw (split-line x y (ground arith)) (ground arith)

is_single-append :
    (s t : Text) → is_single s ≡ true → is_single t ≡ true → is_single (s ++ t) ≡ true
is_single-append [] t h k = k
is_single-append (c ∷ s) t h k = ground (arith, is_single-append s t)

is_single-key : (k : Text) → every is_key_char k ≡ true → is_single k ≡ true
is_single-key [] h = refl
is_single-key (c ∷ k) h = ground (arith, is_single-key k)

is_single-line_text : (l : Line) → IsLine l → is_single (line_text l) ≡ true
is_single-line_text gap h = refl
is_single-line_text (title text) h = h.1
is_single-line_text (section name) h = is_single-append name (codes "]") h refl
is_single-line_text (pair key raw) (h, k, l, m) =
    is_single-append key (codes " = " ++ raw) (is_single-key key k) l

module _ (table : Text) (out : Dict Text) where
  IsRaw-value : (raw : Text) → IsValue raw → (v : Text) × IsRaw raw v
  IsRaw-value raw (inl (s, e, h)) = (s, rw e (IsRaw-str s h))
  IsRaw-value [] (inr (h, k)) = absurd (cc)
  IsRaw-value (c ∷ r) (inr (h, k)) = (c ∷ r, IsRaw-bare c r k)

  set_raw-pair_line :
      (c : ℕ) (k raw v : Text) (key : every is_key_char (c ∷ k) ≡ true) (r : IsRaw raw v)
      → set_raw table (pair_line (c ∷ k) raw) out ≡ store (under table (c ∷ k)) raw out
  unfolding set_raw
  set_raw-pair_line c k raw v key r =
      rw (key_end-line c k raw v key r, set_raw)
        (rw
          (
            take-line c k raw v key r,
            trim_key c k raw v key r (key_char_facts c (ground arith)).0,
            drop-line c k raw v key r,
            r.whole,
          )
          (ground arith))

  raws_from-gap : (ls : List Text) → raws_from table out ([] ∷ ls) ≡ raws_from table out ls
  unfolding raws_from
  raws_from-gap ls = refl

  raws_from-title :
      (text : Text) (ls : List Text)
      → starts_with text (codes "#") ≡ true
      → raws_from table out (text ∷ ls) ≡ raws_from table out ls
  unfolding raws_from starts_with trim trim_start trim_end
  raws_from-title [] ls h = refl
  raws_from-title (c ∷ text) ls h = let hash : c ≡ b'#' = ground arith in rw hash refl

  raws_from-section :
      (name : Text) (ls : List Text)
      → raws_from table out ((b'[' ∷ (name ++ codes "]")) ∷ ls) ≡ raws_from name out ls
  unfolding raws_from
  raws_from-section name ls = rw (trim_end-concat name b']' refl, slice-quoted b'[' b']' name) refl

  raws_from-pair :
      (key raw : Text) (ls : List Text)
      → IsLine (pair key raw)
      → raws_from table out (pair_line key raw ∷ ls)
        ≡ raws_from table (store (under table key) raw out) ls
  unfolding raws_from starts_with
  raws_from-pair [] raw ls (h, _, _, _) = absurd (cc)
  raws_from-pair (c ∷ k) raw ls (h, key, single, value) =
      let (v, r) = IsRaw-value raw value in
      let (_, square, _, hash, _, _, _) = key_char_facts c (ground arith) in
      let no_square : (c == b'[') ≡ false = ground arith in
      let no_hash : (c == b'#') ≡ false = ground arith in
      rw (trim-line c k raw v key r) (
        rw (no_hash, no_square)
          (ap (λ o. raws_from table o ls) (set_raw-pair_line c k raw v key r)))

raws_from-lines :
    (table : Text) (out : Dict Text) (ls : List Line)
    → All IsLine ls
    → raws_from table out (map line_text ls ++ [] ∷ []) ≡ pairs_of table out ls
raws_from-lines table out [] h = unfold raws_from in refl
raws_from-lines table out (gap ∷ ls) (h, hs) =
    raws_from-gap table out (map line_text ls ++ [] ∷ []) ∙ raws_from-lines table out ls hs
raws_from-lines table out (title text ∷ ls) (h, hs) =
    raws_from-title table out text (map line_text ls ++ [] ∷ []) h.0
    ∙ raws_from-lines table out ls hs
raws_from-lines table out (section name ∷ ls) (h, hs) =
    raws_from-section table out name (map line_text ls ++ [] ∷ []) ∙ raws_from-lines name out ls hs
raws_from-lines table out (pair key raw ∷ ls) (h, hs) =
    raws_from-pair table out key raw (map line_text ls ++ [] ∷ []) h
    ∙ raws_from-lines table (store (under table key) raw out) ls hs

split-written_lines :
    (l : Line) (ls : List Line)
    → All IsLine (l ∷ ls)
    → split 10 (written_lines (l ∷ ls)) ≡ map line_text (l ∷ ls) ++ [] ∷ []
unfolding written_lines join
split-written_lines l [] (h, _) =
    split-line (line_text l) [] (is_single-line_text l h) ∙ unfold split in refl
split-written_lines l (k ∷ ls) (h, hs) =
    ap (split 10) (
      append_assoc (line_text l) (codes "\n" ++ join (codes "\n") (map line_text (k ∷ ls)))
        (codes "\n"))
    ∙ split-line (line_text l) (written_lines (k ∷ ls)) (is_single-line_text l h)
    ∙ ap (◌∷◌ (line_text l)) (split-written_lines k ls hs)

generated_raws-written_lines :
    (ls : List Line)
    → is_empty ls ≡ false
    → All IsLine ls
    → generated_raws (written_lines ls) ≡ pairs_of [] [] ls
unfolding generated_raws
generated_raws-written_lines [] h all = absurd (cc)
generated_raws-written_lines (l ∷ ls) h all =
    ap (raws_from [] []) (split-written_lines l ls all) ∙ raws_from-lines [] [] (l ∷ ls) all

-- `mergeConnection` reads from the connection part that is written for a server exactly the keys
-- that the form has made, in order, each in its table and with its raw value, if every value is
-- one line, a string whose template actions hold no backslash and no double quote or a bare value,
-- and the first line is a single one.
pub generated_raws-generate_server :
    (v : ServerForm) (name by : Text)
    → All IsLine (server_lines v name by)
    → generated_raws (generate_server v name by) ≡ pairs_of [] [] (server_lines v name by)
unfolding generate_server server_lines
generated_raws-generate_server v name by h =
    generated_raws-written_lines (server_lines v name by) refl h
