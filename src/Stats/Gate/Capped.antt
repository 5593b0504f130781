-- ===== src/Stats/Gate/Capped.antt =====
-- The bound on the refusals in the table while the statements of privateGate interleave.
use frp_manager.Base.{ℕ, ◌≤◌, Option, Text}
use frp_manager.Stats.Gate.Steps.{Turn, selecting, hashing, refusing, answered, Gate}

module _ (decode : Text → Option Text) (hash : Text → Text) where
  -- no later time than `last`
  abbrev IsIn : ℕ → Turn → Type 0
  IsIn last (selecting q) = q.now ≤ last
  IsIn last (hashing q password) = q.now ≤ last
  IsIn last (refusing q) = q.now ≤ last
  IsIn last (answered answer) = Unit
