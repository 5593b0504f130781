-- ===== src/Stats/Html/Inert.antt =====
-- What a browser reads in a text of escapeHtml.
use frp_manager.Base.{
  ℕ, Bool, true, not, ◌||◌, Option, none, some, [], ◌∷◌, ◌++◌, Text, ◌==◌, if◌then◌else◌, every,
  same, codes, ◌≡◌, inl, inr, refl, ap, arith, Bool-cases, ◌∙◌,
}
use frp_manager.Base.TextLaws.{every-append}
use frp_manager.Stats.Html.{escape_char, escape_html}

-- the character of a reference, between `&` and `;`
abbrev pub referred : Text → Text
unfolding same
referred name =
    if same name (codes "amp")
    then codes "&"
    else if same name (codes "lt")
    then codes "<"
    else if same name (codes "gt")
    then codes ">"
    else if same name (codes "quot")
    then 34 ∷ []
    else if same name (codes "#39")
    then 39 ∷ []
    else []

-- The text that a browser shows; the first argument is the reference that is being read.
unfoldable pub shown_text : Option Text → Text → Text
unfolding same
shown_text pending [] = []
shown_text none (c ∷ s) =
    let plain = shown_text none s in
    let reference = shown_text (some []) s in if c == b'&' then reference else c ∷ plain
shown_text (some name) (c ∷ s) =
    let after = shown_text none s in
    let more = shown_text (some (name ++ c ∷ [])) s in
    if c == b';' then referred name ++ after else more

-- no mark of a tag or of the end of a quoted attribute
abbrev pub is_inert : ℕ → Bool
is_inert c = not (c == b'<' || c == b'>' || c == 34 || c == 39)

escape_char-shown :
    (c : ℕ) (t : Text) → shown_text none (escape_char c ++ t) ≡ c ∷ shown_text none t
unfolding shown_text escape_char same
escape_char-shown c t = elim (Bool-cases (c == b'&')) [
  | inl e ↦ let same_char : c ≡ b'&' = ground arith in rw same_char refl
  | inr e1 ↦ elim (Bool-cases (c == b'<')) [
    | inl e ↦ let same_char : c ≡ b'<' = ground arith in rw same_char refl
    | inr e2 ↦ elim (Bool-cases (c == b'>')) [
      | inl e ↦ let same_char : c ≡ b'>' = ground arith in rw same_char refl
      | inr e3 ↦ elim (Bool-cases (c == 34)) [
        | inl e ↦ let same_char : c ≡ 34 = ground arith in rw same_char refl
        | inr e4 ↦ elim (Bool-cases (c == 39)) [
          | inl e ↦ let same_char : c ≡ 39 = ground arith in rw same_char refl
          | inr e5 ↦ rw (e1, e2, e3, e4, e5) (rw e1 refl)
        ]
      ]
    ]
  ]
]

escape_char-inert : (c : ℕ) → every is_inert (escape_char c) ≡ true
unfolding escape_char
escape_char-inert c = ground arith

escape_html-inert : (s : Text) → every is_inert (escape_html s) ≡ true
unfolding escape_html
escape_html-inert [] = refl
escape_html-inert (c ∷ s) =
    rw (every-append is_inert (escape_char c) (escape_html s), escape_char-inert c)
      (escape_html-inert s)

escape_html-shown : (s : Text) → shown_text none (escape_html s) ≡ s
unfolding escape_html shown_text
escape_html-shown [] = refl
escape_html-shown (c ∷ s) =
    escape_char-shown c (escape_html s) ∙ ap (λ t. c ∷ t) (escape_html-shown s)

-- A text of escapeHtml has no mark of a tag and no quote, and a browser shows the text that was
-- escaped.
pub escape_html_lem :
    (s : Text) → (every is_inert (escape_html s) ≡ true) × (shown_text none (escape_html s) ≡ s)
escape_html_lem s = (escape_html-inert s, escape_html-shown s)
