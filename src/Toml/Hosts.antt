-- ===== src/Toml/Hosts.antt =====
-- Addresses in toml.js: brackets of IPv6 addresses.
pub mod Brackets
use frp_manager.Base.{
  ℕ, suc, ◌-◌, Bool, true, false, not, ◌&&◌, ◌||◌, Option, none, some, [], ◌∷◌, ◌++◌, Text, leb,
  ◌==◌, if◌then◌else◌, length, take, every, some_of, is_empty, slice, starts_with, ends_with, trim,
  codes,
}
use frp_manager.Base.Decimal.{is_digit}

-- `.` of an expression without the `s` flag
abbrev pub is_dot : ℕ → Bool
is_dot c = not (c == 10 || c == 13 || c == 0x2028 || c == 0x2029)

-- `unbracket`; `none` for a missing value
unfoldable pub unbracket : Option Text → Text
unfolding starts_with ends_with trim
unbracket none = []
unbracket (some addr) =
    let text = trim addr in
    let inner = slice text 1 (length text - 1) in
    if leb 2 (length text)
      && starts_with text (codes "[")
      && ends_with text (codes "]")
      && every is_dot inner
    then inner
    else addr

abbrev pub is_colon : ℕ → Bool
is_colon c = c == b':'

abbrev pub is_bracket : ℕ → Bool
is_bracket c = c == b'[' || c == b']'

-- `joinHostPort`
unfoldable pub join_host_port : Text → Text → Text
unfolding starts_with
join_host_port host port =
    if some_of is_colon host && not (starts_with host (codes "["))
    then b'[' ∷ (host ++ b']' ∷ b':' ∷ port)
    else host ++ b':' ∷ port

-- the text before the last colon and the text behind it
unfoldable pub last_colon : Text → Option (Text × Text)
last_colon [] = none
last_colon (c ∷ s) = elim (last_colon s) [
  | some (host, port) ↦ some (c ∷ host, port)
  | none ↦ if is_colon c then some ([], s) else none
]

-- `fixHostPort`: /^([^[\]]*:[^[\]]*):(\d+)$/ splits at the last colon, and wants another before it
unfoldable pub fix_host_port : Text → Text
unfolding last_colon join_host_port
fix_host_port addr = elim (last_colon addr) [
  | none ↦ addr
  | some (host, port) ↦
      if some_of is_colon host
        && not (some_of is_bracket host)
        && not (is_empty port)
        && every is_digit port
      then join_host_port host port
      else addr
]
