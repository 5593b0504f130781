-- ===== src/Stats/Table.antt =====
-- The tables `ips` and `pings` of tools/stats-worker: counters by day and name. Days are numbered,
-- in the order of the texts that `dayOf` makes of them.
pub mod Counts
use frp_manager.Base.{
  ℕ, suc, zero, ◌+◌, Bool, true, false, ◌&&◌, ◌||◌, List, [], ◌∷◌, Text, ◌==◌, ltb, if◌then◌else◌,
  same,
}

pub record Row : Type 0 where
  pub day : ℕ
  pub name : Text
  pub n : ℕ

abbrev pub Table : Type 0
Table = List Row

abbrev pub is_row : ℕ → Text → Row → Bool
unfolding same
is_row day name r = r.day == day && same r.name name

-- `INSERT … VALUES (day, name, 1) ON CONFLICT DO UPDATE SET n = n + 1`
unfoldable pub count_up : ℕ → Text → Table → Table
unfolding same
count_up day name [] = record { day = day; name = name; n = 1 } ∷ []
count_up day name (r ∷ rows) =
    let rest = count_up day name rows in
    if is_row day name r then (record r { n = r.n + 1 }) ∷ rows else r ∷ rest

-- the counter of a day and name, 0 if there is none
unfoldable pub counter : ℕ → Text → Table → ℕ
unfolding same
counter day name [] = 0
counter day name (r ∷ rows) = if is_row day name r then r.n else counter day name rows

-- `SELECT COALESCE(SUM(n), 0) … WHERE day = ?1`
unfoldable pub day_total : ℕ → Table → ℕ
day_total day [] = 0
day_total day (r ∷ rows) =
    let rest = day_total day rows in if r.day == day then r.n + rest else rest

-- `DELETE … WHERE day < ?1`
unfoldable pub delete_before : ℕ → Table → Table
delete_before day [] = []
delete_before day (r ∷ rows) =
    let rest = delete_before day rows in if ltb r.day day then rest else r ∷ rest
