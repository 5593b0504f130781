-- ===== src/Stats/Access.antt =====
-- The rules of the private area in tools/stats-worker/logic.js: privateKey, basicPassword,
-- retryAfter, and redirectTarget.
use frp_manager.Base.{
  ℕ, ◌-◌, ◌+◌, ◌*◌, ◌/◌, Bool, not, ◌&&◌, ◌||◌, Option, none, some, [], ◌∷◌, ◌++◌, Text, ◌==◌, leb,
  if◌then◌else◌, ◌>>=◌, length, take, drop, is_empty, every, index_of, same, trim, codes, min, max,
}
use frp_manager.Base.Decimal.{is_digit}
use frp_manager.Stats.Version.{is_alnum, span}

-- `toLowerCase` of letters from A to Z. No other letter becomes one of those that are compared.
abbrev pub lower : Text → Text
lower [] = []
lower (c ∷ s) = (if leb b'A' c && leb c b'Z' then c + 32 else c) ∷ lower s

abbrev pub is_hex : ℕ → Bool
is_hex c = is_digit c || (leb b'a' c && leb c b'f')

-- `privateKey`; `none` for a value that is no string
unfoldable pub private_key : Option Text → Option Text
unfolding trim
private_key none = none
private_key (some hex) =
    let h = lower (trim hex) in if length h == 64 && every is_hex h then some h else none

-- `[A-Za-z0-9+/]`
abbrev pub is_base64 : ℕ → Bool
is_base64 c = is_alnum c || c == b'+' || c == b'/'

abbrev is_blank : ℕ → Bool
is_blank c = c == 32

abbrev is_equals : ℕ → Bool
is_equals c = c == b'='

-- `/^Basic +([A-Za-z0-9+/]+={0,2}) *$/i`, with its group
unfoldable pub credentials : Text → Option Text
unfolding span same
credentials header =
    let (blanks, text) = span is_blank (drop 5 header) in
    let (base, rest) = span is_base64 text in
    let (signs, tail) = span is_equals rest in
    if same (lower (take 5 header)) (codes "basic")
      && not (is_empty blanks)
      && not (is_empty base)
      && leb (length signs) 2
      && every is_blank tail
    then some (base ++ signs)
    else none

-- `basicPassword`; `decode` is `atob` and the UTF-8 decoder, with `none` where one of them throws
unfoldable pub basic_password : (Text → Option Text) → Option Text → Option Text
unfolding credentials index_of
basic_password decode none = none
basic_password decode (some header) = do
  group ← credentials header
  text ← decode group
  i ← index_of b':' text
  some (drop (i + 1) text)

abbrev pub max_fails : ℕ
max_fails = 10

-- in seconds
abbrev pub fail_window : ℕ
fail_window = 600

-- `retryAfter`; `none` for a first refusal that is no number. A time left that is negative counts as
-- none, as it does in the source by the lower bound.
unfoldable pub retry_after : Option ℕ → ℕ → ℕ
retry_after none now = fail_window
retry_after (some first) now =
    let left = (first + fail_window * 1000 - now + 999) / 1000 in min fail_window (max 1 left)

-- The parts of a URL that `redirectTarget` reads.
pub record Url : Type 0 where
  pub hostname : Text
  pub pathname : Text
  pub search : Text

-- `s.replace(/\/+$/, '')`
unfoldable pub strip_slashes : Text → Text
strip_slashes [] = []
strip_slashes (c ∷ s) =
    let rest = strip_slashes s in if c == b'/' && is_empty rest then [] else c ∷ rest

-- `s.replace(/\.$/, '')`
unfoldable pub strip_dot : Text → Text
strip_dot [] = []
strip_dot (c ∷ s) = if c == b'.' && is_empty s then [] else c ∷ strip_dot s

abbrev pub is_read : Text → Bool
unfolding same
is_read method = same method (codes "GET") || same method (codes "HEAD")

-- `redirectTarget`
unfoldable pub redirect_target : Url → Text → Text → Text → Option Text
unfolding strip_slashes strip_dot same
redirect_target u method old_host new_site =
    if not (same (strip_dot (lower u.hostname)) (lower old_host))
    then none
    else if not (is_read method)
    then none
    else if same (strip_slashes u.pathname) (codes "/api/ping")
    then none
    else some (strip_slashes new_site ++ (u.pathname ++ u.search))
