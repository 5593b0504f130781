-- ===== src/Panel/Firewall/Words.antt =====
-- Words and lines: what splitting, joining and trimming do with them.
use frp_manager.Base.{
  ℕ, Bool, true, false, not, ◌&&◌, List, [], ◌∷◌, ◌++◌, Text, ◌==◌, is_empty, every, is_space,
  add_part, trim, trim_start, trim_end, split, join, codes, append_assoc, ◌≡◌, inl, inr, refl, sym,
  ap, arith, Bool-cases, ◌∙◌,
}
use frp_manager.Base.TextLaws.{trim_end_space}

-- no white space and no `#`
abbrev pub is_word_char : ℕ → Bool
is_word_char c = not (is_space c) && not (c == b'#')

abbrev pub IsWord : Text → Type 0
IsWord s = (is_empty s ≡ false) × (every is_word_char s ≡ true)

split-parts : (sep : ℕ) (s : Text) → (p : Text) × (ps : List Text) × (split sep s ≡ p ∷ ps)
unfolding split
split-parts sep [] = ([], [], refl)
split-parts sep (c ∷ s) =
    let (p, ps, e) = split-parts sep s in
    elim (Bool-cases (c == sep)) [
      | inl t ↦ rw (t, e) ([], p ∷ ps, refl)
      | inr f ↦ rw (f, e) (c ∷ p, ps, refl)
    ]

join-add_part :
    (sep c : ℕ) (p : Text) (ps : List Text)
    → join (sep ∷ []) (add_part c (p ∷ ps)) ≡ c ∷ join (sep ∷ []) (p ∷ ps)
unfolding join
join-add_part sep c p [] = refl
join-add_part sep c p (q ∷ ps) = refl

pub join-split : (sep : ℕ) (s : Text) → join (sep ∷ []) (split sep s) ≡ s
unfolding split join
join-split sep [] = refl
join-split sep (c ∷ s) =
    let (p, ps, e) = split-parts sep s in
    let rest : join (sep ∷ []) (p ∷ ps) ≡ s = rw e at (join-split sep s) in
    elim (Bool-cases (c == sep)) [
      | inl t ↦
          let same_char : c ≡ sep = ground arith in rw (t, e, same_char) (ap (λ r. sep ∷ r) rest)
      | inr f ↦ rw (f, e) (join-add_part sep c p ps ∙ ap (λ r. c ∷ r) rest)
    ]

pub and_both : (a b : Bool) → (a && b) ≡ true → (a ≡ true) × (b ≡ true)
and_both true b h = (refl, h)
and_both false b h = absurd (ground arith)

not-true : (b : Bool) → not b ≡ true → b ≡ false
not-true true h = absurd (ground arith)
not-true false h = refl

-- the first character of a word and the rest
word-parts :
    (c : ℕ) (s : Text)
    → every is_word_char (c ∷ s) ≡ true
    → (is_space c ≡ false) × ((c == b'#') ≡ false) × (every is_word_char s ≡ true)
word-parts c s h =
    let (here, rest) = and_both (is_word_char c) (every is_word_char s) h in
    let (solid, plain) = and_both (not (is_space c)) (not (c == b'#')) here in
    (not-true (is_space c) solid, not-true (c == b'#') plain, rest)

trim_end-word : (s : Text) → every is_word_char s ≡ true → trim_end s ≡ s
unfolding trim_end
trim_end-word [] h = refl
trim_end-word (c ∷ s) h =
    let (solid, _, rest) = word-parts c s h in rw (trim_end-word s rest, solid) refl

trim_start-word : (c : ℕ) (s : Text) → is_space c ≡ false → trim_start (c ∷ s) ≡ c ∷ s
unfolding trim_start
trim_start-word c s h = rw h refl

trim-solid : (c : ℕ) (s : Text) → is_space c ≡ false → trim (c ∷ s) ≡ trim_end (c ∷ s)
unfolding trim
trim-solid c s h = ap trim_end (trim_start-word c s h)

pub trim-word : (s : Text) → IsWord s → trim s ≡ s
trim-word [] (e, h) = absurd (ground arith)
trim-word (c ∷ s) (e, h) =
    let (solid, _, _) = word-parts c s h in trim-solid c s solid ∙ trim_end-word (c ∷ s) h

pub trim-word_spaces : (s : Text) → IsWord s → trim (s ++ codes "  ") ≡ s
trim-word_spaces [] (e, h) = absurd (ground arith)
trim-word_spaces (c ∷ s) (e, h) =
    let (solid, _, _) = word-parts c s h in
    trim-solid c (s ++ codes "  ") solid
    ∙ ap trim_end (sym (append_assoc (c ∷ s) (32 ∷ []) (32 ∷ [])))
    ∙ trim_end_space ((c ∷ s) ++ 32 ∷ [])
    ∙ trim_end_space (c ∷ s)
    ∙ trim_end-word (c ∷ s) h

pub word-no_hash : (s : Text) → every is_word_char s ≡ true → every (λ c. not (c == b'#')) s ≡ true
word-no_hash [] h = refl
word-no_hash (c ∷ s) h =
    let (_, plain, rest) = word-parts c s h in rw (plain, word-no_hash s rest) refl

no_break : (c : ℕ) → is_space c ≡ false → (c == 10) ≡ false
no_break c h = elim (Bool-cases (c == 10)) [
  | inl t ↦ let e : c ≡ 10 = ground arith in absurd (cc (rw e at h))
  | inr f ↦ f
]

pub word-no_break : (s : Text) → every is_word_char s ≡ true → every (λ c. not (c == 10)) s ≡ true
word-no_break [] h = refl
word-no_break (c ∷ s) h =
    let (solid, _, rest) = word-parts c s h in rw (no_break c solid, word-no_break s rest) refl
