-- ===== src/Base/Decimal.antt =====
-- Decimal numerals: the text of a number, and the number that digits spell.
pub mod RoundTrip
use frp_manager.Base.Tests.{ltb, leb, if◌then◌else◌}
use frp_manager.Base.Strings.{Text}
use Prim.Native.Nat.{ℕ, zero, suc, ◌+◌, ◌-◌, ◌*◌, ◌/◌, ◌%◌}
use mathlib.Core.Bool.{Bool, ◌&&◌}
use mathlib.Core.List.{[], ◌∷◌, ◌++◌, foldl}

-- The first argument bounds the number of digits.
decimal_fuel : ℕ → ℕ → Text
decimal_fuel zero n = []
decimal_fuel (suc fuel) n =
    let high = decimal_fuel fuel (n / 10) ++ (b'0' + n % 10) ∷ [] in
    if ltb n 10 then (b'0' + n) ∷ [] else high

-- `String(n)`
unfoldable pub decimal : ℕ → Text
unfolding decimal_fuel
decimal n = decimal_fuel (suc n) n

-- `\d`
abbrev pub is_digit : ℕ → Bool
is_digit c = leb b'0' c && leb c b'9'

-- `Number(s)` of a text of digits, 0 for the empty text
abbrev pub number_of : Text → ℕ
number_of s = foldl (λ n c. n * 10 + (c - b'0')) 0 s
