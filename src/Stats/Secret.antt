-- ===== src/Stats/Secret.antt =====
-- `sameSecret` of tools/stats-worker/logic.js, over the bytes that TextEncoder makes of the texts.
pub mod Equality
use Prim.Native.Nat.{bit_or, bit_xor}
use frp_manager.Base.{ℕ, zero, suc, Bool, List, [], ◌∷◌, ◌==◌, length, ◌≡◌, refl, max}

-- the loop: `(x[i] || 0) ^ (y[i] || 0)` for the indices of the longer list
unfoldable pub mix : ℕ → List ℕ → List ℕ → ℕ
mix diff [] [] = diff
mix diff (a ∷ x) [] = mix (bit_or diff (bit_xor a 0)) x []
mix diff [] (b ∷ y) = mix (bit_or diff (bit_xor 0 b)) [] y
mix diff (a ∷ x) (b ∷ y) = mix (bit_or diff (bit_xor a b)) x y

unfoldable pub same_secret : List ℕ → List ℕ → Bool
unfolding mix
same_secret x y = mix (bit_xor (length x) (length y)) x y == 0
