-- ===== src/Stats/Version/Key.antt =====
-- The counter's key of a ping tells its version, architecture and way of installation apart.
use frp_manager.Base.{
  ℕ, suc, zero, ◌+◌, Bool, true, not, ◌&&◌, Option, none, some, List, [], ◌∷◌, ◌++◌, Text, ◌==◌,
  leb, ltb, ◌>>=◌, length, take, drop, every, index_of, split, starts_with, same, same_iff, codes,
  ◌≡◌, ◌⊎◌, refl, ap, ◌∙◌, arith, Bool-cases, Option-cases, inl, inr,
}
use frp_manager.Base.TextLaws.{every-append}
use frp_manager.Base.Decimal.{is_digit}
use frp_manager.Stats.Version.{
  span, eat_run, eat_char, eat_part, is_pre, is_build, version_rest, is_version, counted_version,
  archs, installs, is_in, Body, body_key, ping_key, max_body,
}

-- no "|"
abbrev free : ℕ → Bool
free c = not (c == b'|')

eat_char-free :
    (k : ℕ) (s rest : Text)
    → free k ≡ true
    → eat_char k s ≡ some rest
    → every free rest ≡ true
    → every free s ≡ true
unfolding eat_char
eat_char-free k [] rest f e h = refl
eat_char-free k (c ∷ s) rest f e h = ground arith

module _ (p : ℕ → Bool) (plain : (c : ℕ) → p c ≡ true → free c ≡ true) where
  span-free : (s : Text) → every free (span p s).1 ≡ true → every free s ≡ true
  unfolding span
  span-free [] h = refl
  span-free (c ∷ s) h = elim (Bool-cases (p c)) [
    | inl k ↦ rw (plain c k) (span-free s (rw k at h))
    | inr k ↦ rw k at h
  ]

  eat_run-free :
      (most : ℕ) (s rest : Text)
      → eat_run p most s ≡ some rest
      → every free rest ≡ true
      → every free s ≡ true
  unfolding eat_run
  eat_run-free most s rest e h =
      elim (Bool-cases (leb 1 (length (span p s).0) && leb (length (span p s).0) most)) [
        | inl k ↦
            let same_rest : (span p s).1 ≡ rest = cc (rw k at e) in span-free s (rw same_rest h)
        | inr k ↦ absurd (cc (rw k at e))
      ]

  eat_part-free :
      (k : ℕ) (most : ℕ) (s rest : Text)
      → free k ≡ true
      → eat_part k p most s ≡ some rest
      → every free rest ≡ true
      → every free s ≡ true
  unfolding eat_part
  eat_part-free k most s rest f e h = elim (Option-cases (eat_char k s)) [
    | inl g ↦ let same_rest : s ≡ rest = cc (rw (g, eat_part) at e) in rw same_rest h
    | inr (t, g) ↦ eat_char-free k s t f g (eat_run-free most t rest (rw (g, eat_part) at e) h)
  ]

digit-free : (c : ℕ) → is_digit c ≡ true → free c ≡ true
digit-free c h = ground arith

pre-free : (c : ℕ) → is_pre c ≡ true → free c ≡ true
pre-free c h = ground arith

build-free : (c : ℕ) → is_build c ≡ true → free c ≡ true
build-free c h = ground arith

>>=-eq-some {ℓ κ} :
    {A : Type ℓ} {B : Type κ} (m : Option A) (f : A → Option B) {b : B}
    → (m >>= f) ≡ some b
    → (a : A) × (m ≡ some a) × (f a ≡ some b)
>>=-eq-some none f h = absurd (cc)
>>=-eq-some (some a) f h = (a, refl, h)

version_rest-free :
    (s rest : Text) → version_rest s ≡ some rest → every free rest ≡ true → every free s ≡ true
unfolding version_rest
version_rest-free s rest e h =
    let (major, e₁, k₁) = >>=-eq-some (eat_run is_digit 4 s) _ e in
    let (first, e₂, k₂) = >>=-eq-some (eat_char b'.' major) _ k₁ in
    let (minor, e₃, k₃) = >>=-eq-some (eat_run is_digit 4 first) _ k₂ in
    let (second, e₄, k₄) = >>=-eq-some (eat_char b'.' minor) _ k₃ in
    let (patch, e₅, k₅) = >>=-eq-some (eat_run is_digit 4 second) _ k₄ in
    let (pre, e₆, k₆) = >>=-eq-some (eat_part b'-' is_pre 20 patch) _ k₅ in
    eat_run-free is_digit digit-free 4 s major e₁ (
      eat_char-free b'.' major first refl e₂ (
        eat_run-free is_digit digit-free 4 first minor e₃ (
          eat_char-free b'.' minor second refl e₄ (
            eat_run-free is_digit digit-free 4 second patch e₅ (
              eat_part-free is_pre pre-free b'-' 20 patch pre refl e₆
                (eat_part-free is_build build-free b'+' 60 pre rest refl k₆ h))))))

is_version-free : (s : Text) → is_version s ≡ true → every free s ≡ true
unfolding is_version
is_version-free s h = elim (Option-cases (version_rest s)) [
  | inl e ↦ absurd (cc (rw (e, is_version) at h))
  | inr ([], e) ↦ version_rest-free s [] e refl
  | inr (c ∷ rest, e) ↦ absurd (cc (rw (e, is_version) at h))
]

every-take : (n : ℕ) (s : Text) → every free s ≡ true → every free (take n s) ≡ true
every-take zero s h = refl
every-take (suc n) [] h = refl
every-take (suc n) (c ∷ s) h = ground (arith, every-take n s)

counted_version-free : (v : Text) → every free v ≡ true → every free (counted_version v) ≡ true
unfolding counted_version
counted_version-free v h = elim (Option-cases (index_of b'+' v)) [
  | inl e ↦ rw (e, counted_version) h
  | inr (i, e) ↦ elim (Bool-cases (starts_with (drop (i + 1) v) (codes "dev"))) [
    | inl k ↦
        rw (e, k, counted_version)
          (rw (every-append free (take i v) (codes "+dev"), every-take i v h) refl)
    | inr k ↦ rw (e, k, counted_version) (every-take i v h)
  ]
]

is_in-free :
    (names : List Text) (x : Text)
    → every (every free) names ≡ true
    → is_in names (some x) ≡ true
    → every free x ≡ true
unfolding is_in
is_in-free [] x k h = absurd (cc)
is_in-free (n ∷ names) x k h = elim (Bool-cases (same n x)) [
  | inl e ↦ let e' : n ≡ x = (same_iff n x).0 e in rw (← e') (ground arith)
  | inr e ↦ is_in-free names x (ground arith) (ground (arith, rw e at h))
]

split-free : (x : Text) → every free x ≡ true → split b'|' x ≡ x ∷ []
unfolding split
split-free [] h = refl
split-free (c ∷ x) h = ground (arith, split-free x)

split-append : (x y : Text) → every free x ≡ true → split b'|' (x ++ b'|' ∷ y) ≡ x ∷ split b'|' y
unfolding split
split-append [] y h = refl
split-append (c ∷ x) y h = rw (split-append x y (ground arith)) (ground arith)

and_parts : (x y z : Bool) → (x && y && z) ≡ true → (x ≡ true) × (y ≡ true) × (z ≡ true)
and_parts x y z h = ground arith

-- only an object with the three texts has a key
full_body :
    (v a i : Option Text)
    → (body_key (record { version = v; arch = a; install = i }) ≡ none)
      ⊎ ((version : Text) × (arch : Text) × (install : Text) × (v ≡ some version)
          × (a ≡ some arch)
          × (i ≡ some install))
unfolding body_key
full_body none a i = inl refl
full_body (some v) none i = inl refl
full_body (some v) (some a) none = inl refl
full_body (some v) (some a) (some i) = inr (v, a, i, refl, refl, refl)

body_key-split :
    (v a i key : Text)
    → body_key (record { version = some v; arch = some a; install = some i }) ≡ some key
    → (is_version v ≡ true)
      × (is_in archs (some a) ≡ true)
      × (is_in installs (some i) ≡ true)
      × (split b'|' key ≡ counted_version v ∷ a ∷ i ∷ [])
unfolding body_key
body_key-split v a i key e =
    elim (Bool-cases (is_version v && is_in archs (some a) && is_in installs (some i))) [
      | inr bad ↦ absurd (cc (rw bad at e))
      | inl good ↦
          let known : (is_version v ≡ true)
              × (is_in archs (some a) ≡ true)
              × (is_in installs (some i) ≡ true) =
            and_parts (is_version v) (is_in archs (some a)) (is_in installs (some i)) good in
          let same_key : counted_version v ++ b'|' ∷ (a ++ b'|' ∷ i) ≡ key = cc (rw good at e) in
          (
            known.0,
            known.1,
            known.2,
            rw (← same_key) (
                split-append (counted_version v) (a ++ b'|' ∷ i)
                  (counted_version-free v (is_version-free v known.0))
                ∙ ap (◌∷◌ (counted_version v)) (
                    split-append a i (is_in-free archs a refl known.1)
                    ∙ ap (◌∷◌ a) (split-free i (is_in-free installs i refl known.2)))),
          )
    ]

-- A ping that is counted has a version, an architecture and a way of installation that the receiver
-- knows, and its key, split at "|", gives the counted version and the two others back: pings that
-- differ in one of them are counted apart.
pub ping_key-split :
    (parse : Text → Option Body) (text key : Text)
    → ping_key parse text ≡ some key
    → (version : Text) × (arch : Text) × (install : Text) × (parse text
        ≡ some (record { version = some version; arch = some arch; install = some install }))
      × (is_version version ≡ true)
      × (is_in archs (some arch) ≡ true)
      × (is_in installs (some install) ≡ true)
      × (split b'|' key ≡ counted_version version ∷ arch ∷ install ∷ [])
unfolding ping_key
ping_key-split parse text key e = elim (Bool-cases (ltb max_body (length text))) [
  | inl long ↦ absurd (cc (rw long at e))
  | inr short ↦ elim (Option-cases (parse text)) [
    | inl k ↦ absurd (cc (rw (short, k, ◌>>=◌) at e))
    | inr (b, k) ↦ elim (full_body b.version b.arch b.install) [
      | inl none_key ↦ absurd (cc (rw (short, k, none_key, ◌>>=◌) at e))
      | inr (version, arch, install, e₁, e₂, e₃) ↦
          let same_body : b
              ≡ record { version = some version; arch = some arch; install = some install } =
            ground (arith, e₁, e₂, e₃) in
          let counted : body_key b ≡ some key = rw (short, k) at e in
          let (known, known_arch, known_install, parts) =
            body_key-split version arch install key (rw same_body at counted) in
          (version, arch, install, k ∙ ap some same_body, known, known_arch, known_install, parts)
    ]
  ]
]
