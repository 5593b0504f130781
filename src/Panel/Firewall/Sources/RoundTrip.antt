-- ===== src/Panel/Firewall/Sources/RoundTrip.antt =====
-- Sources that are written as a text and read again.
use frp_manager.Base.{
  ℕ, ◌≤◌, Bool, true, not, ◌&&◌, none, some, List, [], ◌∷◌, ◌++◌, Text, ◌==◌, map, keep, is_empty,
  every, trim, trim_start, trim_end, split, join, codes, All, append_assoc, ◌≡◌, inl, inr, refl,
  sym, ap, arith, Bool-cases, ◌∙◌,
}
use frp_manager.Base.Decimal.{decimal, is_digit}
use frp_manager.Base.Decimal.RoundTrip.{number_of-decimal, decimal-digits, decimal-filled}
use frp_manager.Base.TextLaws.{every-append, trim_space}
use frp_manager.Panel.Firewall.Sources.{
  Origin, Source, source_label, source_line, sources_to_text, system_of, origin_of, source_of,
  is_given, text_to_sources,
}
use frp_manager.Base.Splits.{split-append, split-alone, split-join}
use frp_manager.Panel.Firewall.Words.{
  is_word_char, IsWord, join-split, trim-word, trim-word_spaces, word-no_hash, word-no_break,
  and_both,
}

abbrev IsSystem : ℕ → Text → Type 0
IsSystem n s = system_of s ≡ some n

abbrev OriginIsWritable : Origin → Type 0
OriginIsWritable (Origin.cidr c) = IsWord c × (system_of c ≡ none)
OriginIsWritable (Origin.asn n) = 1 ≤ n

-- A source that its line can hold: an address is a word that is no number of a system, and a note is
-- trimmed and stands on one line.
pub record IsWritable (s : Source) : Type 0 where
  pub written : OriginIsWritable s.origin
  pub trimmed : trim s.note ≡ s.note
  pub one_line : every (λ c. not (c == 10)) s.note ≡ true

digit-word : (c : ℕ) → is_digit c ≡ true → is_word_char c ≡ true
digit-word c h = ground arith

digits-word : (s : Text) → every is_digit s ≡ true → every is_word_char s ≡ true
digits-word [] h = refl
digits-word (c ∷ s) h =
    let (here, rest) = and_both (is_digit c) (every is_digit s) h in
    rw (digit-word c here, digits-word s rest) refl

trim_start-digits : (s : Text) → every is_digit s ≡ true → trim_start s ≡ s
unfolding trim_start
trim_start-digits [] h = refl
trim_start-digits (c ∷ s) h = ground arith

system_of-asn : (n : ℕ) → system_of (codes "AS" ++ decimal n) ≡ some n
unfolding system_of
system_of-asn n =
    rw
      (
        trim_start-digits (decimal n) (decimal-digits n),
        decimal-digits n,
        decimal-filled n,
        number_of-decimal n,
      )
      refl

source_label-IsWord : (o : Origin) → OriginIsWritable o → IsWord (source_label o)
unfolding source_label
source_label-IsWord (Origin.cidr c) (h, _) = h
source_label-IsWord (Origin.asn n) h = (refl, digits-word (decimal n) (decimal-digits n))

source_label-origin : (o : Origin) → OriginIsWritable o → origin_of (source_label o) ≡ o
unfolding source_label origin_of
source_label-origin (Origin.cidr c) (_, h) = rw (h, origin_of) refl
source_label-origin (Origin.asn n) h = rw (system_of-asn n, origin_of) refl

source_of-parts :
    (addr : Text) (notes : List Text) (s : Source)
    → OriginIsWritable s.origin
    → trim addr ≡ source_label s.origin
    → trim (join (codes "#") notes) ≡ s.note
    → source_of (addr ∷ notes) ≡ s
unfolding source_of
source_of-parts addr notes s w ha hn =
    rw (ha, hn) (ap (λ o. (record s { origin = o })) (source_label-origin s.origin w))

no_note : (t : Text) → is_empty t ≡ true → trim (join (codes "#") []) ≡ t
unfolding join trim trim_start trim_end
no_note [] h = refl
no_note (c ∷ t) h = absurd (ground arith)

split-noted :
    (label note : Text)
    → every is_word_char label ≡ true
    → split b'#' (label ++ (codes "  # " ++ note)) ≡ (label ++ codes "  ") ∷ split b'#' (32 ∷ note)
split-noted label note h =
    let plain : every (λ c. not (c == b'#')) (label ++ codes "  ") ≡ true =
      every-append (λ c. not (c == b'#')) label (codes "  ")
      ∙ ap (λ b. b && true) (word-no_hash label h) in
    ap (split b'#') (sym (append_assoc label (codes "  ") (b'#' ∷ 32 ∷ note)))
    ∙ split-append b'#' (label ++ codes "  ") (32 ∷ note) plain

source_of-line : (s : Source) → IsWritable s → source_of (split b'#' (source_line s)) ≡ s
unfolding source_line
source_of-line s w =
    let label = source_label s.origin in
    let word = source_label-IsWord s.origin w.written in
    elim (Bool-cases (is_empty s.note)) [
      | inl e ↦
          rw (e, split-alone b'#' label (word-no_hash label word.1))
            (source_of-parts label [] s w.written (trim-word label word) (no_note s.note e))
      | inr e ↦
          rw (e, split-noted label s.note word.1)
            (source_of-parts (label ++ codes "  ") (split b'#' (32 ∷ s.note)) s w.written
              (trim-word_spaces label word)
              (ap trim (join-split b'#' (32 ∷ s.note)) ∙ trim_space s.note ∙ w.trimmed))
    ]

source_line-no_break :
    (s : Source) → IsWritable s → every (λ c. not (c == 10)) (source_line s) ≡ true
unfolding source_line
source_line-no_break s w =
    let label = source_label s.origin in
    let word = source_label-IsWord s.origin w.written in
    let plain = word-no_break label word.1 in
    elim (Bool-cases (is_empty s.note)) [
      | inl e ↦ rw e plain
      | inr e ↦
          rw (e, every-append (λ c. not (c == 10)) label (codes "  # " ++ s.note), plain) w.one_line
    ]

lines-no_break :
    (ss : List Source)
    → All IsWritable ss
    → All (λ m. every (λ c. not (c == 10)) m ≡ true) (map source_line ss)
lines-no_break [] h = tt
lines-no_break (s ∷ ss) (w, h) = (source_line-no_break s w, lines-no_break ss h)

is_written : Origin → Bool
is_written o = elim o [ Origin.cidr c ↦ not (is_empty c) | Origin.asn n ↦ not (n == 0) ]

origin-is_written : (o : Origin) → OriginIsWritable o → is_written o ≡ true
unfolding is_written
origin-is_written (Origin.cidr c) ((h, _), _) = rw h refl
origin-is_written (Origin.asn n) h = ground arith

writable-is_given : (s : Source) → IsWritable s → is_given s ≡ true
unfolding is_written
writable-is_given s w = origin-is_written s.origin w.written

nothing-read : text_to_sources (sources_to_text []) ≡ []
unfolding text_to_sources sources_to_text split join source_of origin_of system_of trim trim_start
    trim_end
nothing-read = refl

abbrev read_lines_of : List Text → List Source
read_lines_of ls = keep is_given (map (λ line. source_of (split b'#' line)) ls)

read-lines : (ss : List Source) → All IsWritable ss → read_lines_of (map source_line ss) ≡ ss
read-lines [] h = refl
read-lines (s ∷ ss) (w, h) =
    rw (source_of-line s w, writable-is_given s w) (ap (λ xs. s ∷ xs) (read-lines ss h))

-- Sources that are written into the field are read back unchanged and in order, where each is a system
-- with a number other than 0 or an address without white space and `#` that does not read as a
-- system, with a trimmed note on one line; the note may hold `#`.
pub text_to_sources-sources_to_text :
    (ss : List Source) → All IsWritable ss → text_to_sources (sources_to_text ss) ≡ ss
unfolding text_to_sources sources_to_text
text_to_sources-sources_to_text [] h = nothing-read
text_to_sources-sources_to_text (s ∷ ss) h =
    ap read_lines_of
      (split-join 10 (source_line s) (map source_line ss) (lines-no_break (s ∷ ss) h))
    ∙ read-lines (s ∷ ss) h
