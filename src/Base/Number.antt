-- ===== src/Base/Number.antt =====
-- `Number` of a text, as far as a test reads it: whether the result is neither NaN nor 0. An exponent
-- that makes the value underflow to 0 is not followed.
use Prim.Native.Nat.{ℕ}
use mathlib.Core.Path.{◌≡◌, refl}
use mathlib.Core.Bool.{Bool, true, false, not, ◌&&◌, ◌||◌}
use mathlib.Core.List.{[], ◌∷◌, ◌++◌}
use frp_manager.Base.Tests.{◌==◌, leb, if◌then◌else◌}
use frp_manager.Base.Lists.{every, some_of, is_empty, drop}
use frp_manager.Base.Strings.{Text, codes, starts_with, trim, same}
use frp_manager.Base.Decimal.{is_digit}

-- the longest run of digits at the start of a text, and what follows it
digits_of : Text → Text × Text
digits_of [] = ([], [])
digits_of (c ∷ s) =
    let (ds, rest) = digits_of s in if is_digit c then (c ∷ ds, rest) else ([], c ∷ s)

drop_sign : Text → Text
drop_sign [] = []
drop_sign (c ∷ s) = if c == b'+' || c == b'-' then s else c ∷ s

-- `[eE][+-]?\d+` or nothing, to the end
is_exponent : Text → Bool
unfolding drop_sign
is_exponent [] = true
is_exponent (c ∷ s) =
    (c == b'e' || c == b'E') && not (is_empty (drop_sign s)) && every is_digit (drop_sign s)

-- the digits before the point, the fraction, and the exponent
decimal_truthy : Text → Bool
unfolding digits_of is_exponent starts_with
decimal_truthy s =
    let (whole, rest) = digits_of s in
    let (fraction, after) =
      if starts_with rest (codes ".") then digits_of (drop 1 rest) else ([], rest) in
    some_of (λ c. not (c == b'0')) (whole ++ fraction) && is_exponent after

is_radix_digit : ℕ → ℕ → Bool
is_radix_digit mark c =
    if mark == b'x' || mark == b'X'
    then is_digit c || (leb b'a' c && leb c b'f') || (leb b'A' c && leb c b'F')
    else if mark == b'o' || mark == b'O'
    then leb b'0' c && leb c b'7'
    else if mark == b'b' || mark == b'B'
    then c == b'0' || c == b'1'
    else false

unsigned_truthy : Text → Bool
unfolding decimal_truthy is_radix_digit same
unsigned_truthy s = same s (codes "Infinity") || decimal_truthy s

signed_truthy : Text → Bool
unfolding unsigned_truthy is_radix_digit drop_sign
signed_truthy (zero_digit ∷ mark ∷ rest) =
    (zero_digit == b'0' && every (is_radix_digit mark) rest && some_of (λ c. not (c == b'0')) rest)
    || unsigned_truthy (drop_sign (zero_digit ∷ mark ∷ rest))
signed_truthy s = unsigned_truthy (drop_sign s)

unfoldable pub is_truthy_number : Text → Bool
unfolding signed_truthy trim
is_truthy_number t = signed_truthy (trim t)

number_tests :
    (is_truthy_number (codes " 6000 ") ≡ true)
    × (is_truthy_number (codes "000") ≡ false)
    × (is_truthy_number (codes "0x1F") ≡ true)
    × (is_truthy_number (codes "-0.50e3") ≡ true)
    × (is_truthy_number (codes "6_000") ≡ false)
    × (is_truthy_number (codes "{{ $v }}") ≡ false)
unfolding is_truthy_number
number_tests = (refl, refl, refl, refl, refl, refl)
