-- ===== src/Stats/Version.antt =====
-- Pings in tools/stats-worker/logic.js: VERSION_RE, countedVersion and pingKey. What JSON.parse
-- makes of a text is a parameter.
pub mod Key
use frp_manager.Base.{
  ℕ, suc, zero, ◌-◌, ◌+◌, Bool, true, false, not, ◌&&◌, ◌||◌, Option, none, some, is_some, List, [],
  ◌∷◌, ◌++◌, Text, ◌==◌, leb, ltb, if◌then◌else◌, ◌>>=◌, ◌≡◌, refl, length, take, drop, is_empty,
  some_of, index_of, starts_with, same, codes,
}
use frp_manager.Base.Decimal.{is_digit}

-- `[0-9A-Za-z]`
abbrev pub is_alnum : ℕ → Bool
is_alnum c = is_digit c || (leb b'A' c && leb c b'Z') || (leb b'a' c && leb c b'z')

-- the front of a text that is in the class `p`, and the rest
unfoldable pub span : (ℕ → Bool) → Text → Text × Text
span p [] = ([], [])
span p (c ∷ s) = let (front, rest) = span p s in if p c then (c ∷ front, rest) else ([], c ∷ s)

-- `[p]{1,most}` where no character of the class can follow: what is left
unfoldable pub eat_run : (ℕ → Bool) → ℕ → Text → Option Text
unfolding span
eat_run p most s =
    let (front, rest) = span p s in
    if leb 1 (length front) && leb (length front) most then some rest else none

unfoldable pub eat_char : ℕ → Text → Option Text
eat_char k [] = none
eat_char k (c ∷ s) = if c == k then some s else none

-- `(k[p]{1,most})?` where `k` cannot follow otherwise
unfoldable pub eat_part : ℕ → (ℕ → Bool) → ℕ → Text → Option Text
unfolding eat_char eat_run
eat_part k p most s = elim (eat_char k s) [ none ↦ some s | some rest ↦ eat_run p most rest ]

-- `[0-9A-Za-z.]` and `[0-9A-Za-z.-]`
abbrev pub is_pre : ℕ → Bool
is_pre c = is_alnum c || c == b'.'

abbrev pub is_build : ℕ → Bool
is_build c = is_alnum c || c == b'.' || c == b'-'

-- `VERSION_RE`: the text that is left behind a version
unfoldable pub version_rest : Text → Option Text
unfolding eat_run eat_char eat_part
version_rest s = do
  major ← eat_run is_digit 4 s
  first ← eat_char b'.' major
  minor ← eat_run is_digit 4 first
  second ← eat_char b'.' minor
  patch ← eat_run is_digit 4 second
  pre ← eat_part b'-' is_pre 20 patch
  eat_part b'+' is_build 60 pre

unfoldable pub is_version : Text → Bool
unfolding version_rest
is_version s = elim (version_rest s) [ none ↦ false | some rest ↦ is_empty rest ]

-- `countedVersion`
unfoldable pub counted_version : Text → Text
unfolding index_of starts_with
counted_version v = elim (index_of b'+' v) [
  | none ↦ v
  | some i ↦
      if starts_with (drop (i + 1) v) (codes "dev") then take i v ++ codes "+dev" else take i v
]

abbrev pub archs : List Text
archs = codes "amd64" ∷ codes "arm64" ∷ codes "arm" ∷ []

abbrev pub installs : List Text
installs = codes "script" ∷ codes "apt" ∷ codes "docker" ∷ []

-- `set.has(x)`, where `none` is a value that is no string
unfoldable pub is_in : List Text → Option Text → Bool
unfolding same
is_in names none = false
is_in names (some x) = some_of (λ n. same n x) names

-- What `pingKey` reads of an object: its three properties, `none` where one is missing or no
-- string.
pub record Body : Type 0 where
  pub version : Option Text
  pub arch : Option Text
  pub install : Option Text

abbrev pub max_body : ℕ
max_body = 1024

-- `pingKey` of an object
unfoldable pub body_key : Body → Option Text
unfolding is_version counted_version is_in
body_key b = do
  v ← b.version
  arch ← b.arch
  install ← b.install
  if is_version v && is_in archs (some arch) && is_in installs (some install)
      then some (counted_version v ++ b'|' ∷ (arch ++ b'|' ∷ install))
      else none

-- `pingKey`; `parse` gives `none` if JSON.parse throws, or makes no object of the text
unfoldable pub ping_key : (Text → Option Body) → Text → Option Text
unfolding body_key
ping_key parse text = if ltb max_body (length text) then none else (do b ← parse text; body_key b)

version_tests :
    (is_version (codes "1.4.0-rc.1+dev.12.gabc") ≡ true)
    × (is_version (codes "1.4") ≡ false)
    × (counted_version (codes "1.4.0+dev.12.gabc") ≡ codes "1.4.0+dev")
unfolding is_version counted_version
version_tests = (refl, refl, refl)
