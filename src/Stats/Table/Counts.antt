-- ===== src/Stats/Table/Counts.antt =====
-- What the statements on the tables do to a counter and to the sum of a day.
use frp_manager.Base.{
  ℕ, ◌+◌, ◌≤◌, true, ◌&&◌, [], ◌∷◌, Text, ◌==◌, ==_iff, ltb, if◌then◌else◌, same, same_iff, ◌≡◌,
  refl, arith, Bool-cases, inl, inr,
}
use frp_manager.Stats.Table.{Table, is_row, count_up, counter, day_total, delete_before}

-- if a row is that of one name, it is that of another exactly if the names are the same
same_row : (r s n : Text) → same r s ≡ true → same r n ≡ same s n
same_row r s n h = rw ((same_iff r s).0 h)

same_right : (r m n : Text) → same m n ≡ true → same r m ≡ same r n
same_right r m n h = rw ((same_iff m n).0 h)

pub counter-count_up :
    (d e : ℕ) (n m : Text) (t : Table)
    → counter d n (count_up e m t)
      ≡ (if e == d && same m n then counter d n t + 1 else counter d n t)
unfolding counter count_up
counter-count_up d e n m [] = ground arith
counter-count_up d e n m (r ∷ t) = elim (Bool-cases (r.day == e)) [
  | inl k ↦ elim (Bool-cases (same r.name m)) [
    | inl h ↦ rw (k, h) (rw (same_row r.name m n h, (==_iff r.day e).0 k) (ground arith))
    | inr h ↦ rw (k, h) (ground (arith, counter-count_up d e n m t, same_right r.name m n))
  ]
  | inr k ↦ rw k (ground (arith, counter-count_up d e n m t))
]

pub counter-delete_before :
    (d e : ℕ) (n : Text) (t : Table) → e ≤ d → counter d n (delete_before e t) ≡ counter d n t
unfolding counter delete_before
counter-delete_before d e n [] h = refl
counter-delete_before d e n (r ∷ t) h = elim (Bool-cases (ltb r.day e)) [
  | inl k ↦ rw k (ground (arith, counter-delete_before d e n t h))
  | inr k ↦ rw k (ground (arith, counter-delete_before d e n t h))
]

pub day_total-count_up :
    (d e : ℕ) (m : Text) (t : Table)
    → day_total d (count_up e m t) ≡ (if e == d then day_total d t + 1 else day_total d t)
unfolding day_total count_up
day_total-count_up d e m [] = ground arith
day_total-count_up d e m (r ∷ t) = elim (Bool-cases (is_row e m r)) [
  | inl k ↦ rw k (ground (arith, day_total-count_up d e m t))
  | inr k ↦ rw k (ground (arith, day_total-count_up d e m t))
]

pub day_total-delete_before :
    (d e : ℕ) (t : Table) → e ≤ d → day_total d (delete_before e t) ≡ day_total d t
unfolding day_total delete_before
day_total-delete_before d e [] h = refl
day_total-delete_before d e (r ∷ t) h = elim (Bool-cases (ltb r.day e)) [
  | inl k ↦ rw k (ground (arith, day_total-delete_before d e t h))
  | inr k ↦ rw k (ground (arith, day_total-delete_before d e t h))
]
