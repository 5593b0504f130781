-- ===== src/Stats/Ping/Limits.antt =====
-- Requests to /api/ping whose statements interleave: the limit of an address, the counters, and
-- the limit of a day.
use frp_manager.Base.{
  ℕ, suc, ◌+◌, ◌*◌, ◌≤◌, min, Bool, ◌&&◌, Option, List, ◌∷◌, ◌++◌, Text, ◌==◌, if◌then◌else◌, same,
  same_iff, ◌≡◌, ◌⊎◌, inl, inr, arith, ltb, leb, Bool-cases,
}
use frp_manager.Stats.Version.{Body}
use frp_manager.Stats.Table.{count_up, counter, day_total}
use frp_manager.Stats.Table.Counts.{
  counter-count_up, counter-delete_before, day_total-count_up, day_total-delete_before,
}
use frp_manager.Stats.Ping.{
  Db, Stage, counting, checking, writing, sweeping, done, refused, Request, arrive, advance, day_of,
  oldest_kept, per_ip_day, max_per_day,
}

-- The database and what the requests have still to do.
pub record State : Type 0 where
  pub db : Db
  pub stages : List Stage

-- What requests can do from a state on: a request comes in, on the day `last` or before, or one of
-- them has its next statement run. After a statement the stages are as `Allowed` says.
pub data Run (hash_ip : Text → ℕ → Text) (parse : Text → Option Body) (last : ℕ)
    (Allowed : List Stage → Type 0) (start : State) : State → Type 0 where
  begin : Run hash_ip parse last Allowed start start
  join :
      {s : State} (r : Request) (now : ℕ)
      → Run hash_ip parse last Allowed start s
      → day_of now ≤ last
      → Run hash_ip parse last Allowed start
          (record s { stages = arrive hash_ip parse r now ∷ s.stages })
  move :
      {s : State} (front : List Stage) (st : Stage) (back : List Stage)
      → Run hash_ip parse last Allowed start s
      → s.stages ≡ front ++ st ∷ back
      → Allowed (front ++ (advance st s.db).0 ∷ back)
      → Run hash_ip parse last Allowed start
          (record { db = (advance st s.db).1; stages = front ++ (advance st s.db).0 ∷ back })

abbrev one_if : Bool → ℕ
one_if b = if b then 1 else 0

-- 1 for a request of that day and address that the limit of the address has let pass
abbrev pub passed : ℕ → Text → Stage → ℕ
passed d ip (counting p) = 0
passed d ip (checking p) = one_if (day_of p.now == d && same p.ip ip)
passed d ip (writing p) = one_if (day_of p.now == d && same p.ip ip)
passed d ip (sweeping p) = one_if (day_of p.now == d && same p.ip ip)
passed d ip (done p) = one_if (day_of p.now == d && same p.ip ip)
passed d ip (refused status) = 0

-- 1 for a request of a later day that has done its housekeeping
abbrev pub late_sweep : ℕ → Stage → ℕ
late_sweep d (counting p) = 0
late_sweep d (checking p) = 0
late_sweep d (writing p) = 0
late_sweep d (sweeping p) = 0
late_sweep d (done p) = one_if (ltb d (day_of p.now))
late_sweep d (refused status) = 0

-- 1 for a request of that day that has been accepted
abbrev pub accepted : ℕ → Stage → ℕ
accepted d (counting p) = 0
accepted d (checking p) = 0
accepted d (writing p) = 0
accepted d (sweeping p) = one_if (day_of p.now == d)
accepted d (done p) = one_if (day_of p.now == d)
accepted d (refused status) = 0

-- 1 for a request of that day that the limit of the day has let pass, before it is counted
abbrev pub about_to_write : ℕ → Stage → ℕ
about_to_write d (counting p) = 0
about_to_write d (checking p) = 0
about_to_write d (writing p) = one_if (day_of p.now == d)
about_to_write d (sweeping p) = 0
about_to_write d (done p) = 0
about_to_write d (refused status) = 0

-- no day later than `last`
abbrev pub InTime : ℕ → Stage → Type 0
InTime last (counting p) = day_of p.now ≤ last
InTime last (checking p) = day_of p.now ≤ last
InTime last (writing p) = day_of p.now ≤ last
InTime last (sweeping p) = day_of p.now ≤ last
InTime last (done p) = day_of p.now ≤ last
InTime last (refused status) = Unit

-- the counters of a day are kept for 400 days
oldest_kept-le : (d now : ℕ) → day_of now ≤ d + 400 → oldest_kept now ≤ d
unfolding oldest_kept day_of
oldest_kept-le d now h = omega arith

pub advance-InTime : (d : ℕ) (st : Stage) (db : Db) → InTime d st → InTime d (advance st db).0
unfolding advance
advance-InTime d (counting p) db h = ground arith
advance-InTime d (checking p) db h = ground arith
advance-InTime d (writing p) db h = h
advance-InTime d (sweeping p) db h = h
advance-InTime d (done p) db h = h
advance-InTime d (refused status) db h = tt

module _ (d : ℕ) (ip : Text) (db : Db) where
  -- A statement lets a request pass only with the counter, of which no more than 30 counts; what
  -- housekeeping on a later day takes off the counter is up to 30.
  pub advance_limited :
      (st : Stage)
      → passed d ip (advance st db).0 + 30 * late_sweep d st + min 30 (counter d ip db.ips)
        ≤ passed d ip st
          + 30 * late_sweep d (advance st db).0
          + min 30 (counter d ip (advance st db).1.ips)
  unfolding advance
  advance_limited (counting p) =
      let ips = count_up (day_of p.now) p.ip db.ips in
      let counted = counter-count_up d (day_of p.now) ip p.ip db.ips in
      elim (Bool-cases (ltb per_ip_day (counter (day_of p.now) p.ip ips))) [
        | inl over ↦ rw over (ground (arith, counted))
        | inr fits ↦ elim (Bool-cases (day_of p.now == d && same p.ip ip)) [
          | inl h ↦
              let day : day_of p.now ≡ d = ground arith in
              let name : p.ip ≡ ip = (same_iff p.ip ip).0 (ground arith) in
              let room : counter d ip (count_up (day_of p.now) p.ip db.ips) ≤ 30 =
                rw (← day, ← name) (ground arith) in
              rw fits (ground (arith, counted))
          | inr h ↦ rw fits (ground (arith, counted))
        ]
      ]
  advance_limited (checking p) = ground arith
  advance_limited (writing p) = ground arith
  advance_limited (sweeping p) = elim (Bool-cases (ltb d (day_of p.now))) [
    | inl late ↦ rw late (omega arith)
    | inr kept ↦
        rw (kept, counter-delete_before d (day_of p.now) ip db.ips (ground arith)) (omega arith)
  ]
  advance_limited (done p) = omega arith
  advance_limited (refused status) = omega arith

module _ (d : ℕ) (db : Db) where
  pub advance_total :
      (st : Stage)
      → InTime (d + 400) st
      → day_total d (advance st db).1.pings + accepted d st
        ≡ day_total d db.pings + accepted d (advance st db).0
  unfolding advance
  advance_total (counting p) h = ground arith
  advance_total (checking p) h = ground arith
  advance_total (writing p) h = ground (arith, day_total-count_up d (day_of p.now) p.key db.pings)
  advance_total (sweeping p) h =
      ground
        (arith, day_total-delete_before d (oldest_kept p.now) db.pings, oldest_kept-le d p.now h)
  advance_total (done p) h = ground arith
  advance_total (refused status) h = ground arith

  pub advance_capped :
      (st : Stage)
      → InTime (d + 400) st
      → (day_total d (advance st db).1.pings + about_to_write d (advance st db).0
          ≤ day_total d db.pings + about_to_write d st)
        ⊎ (suc (day_total d (advance st db).1.pings) ≤ max_per_day)
  unfolding advance
  advance_capped (counting p) h = inl (ground arith)
  advance_capped (checking p) h =
      elim (Bool-cases (leb max_per_day (day_total (day_of p.now) db.pings))) [
        | inl over ↦ inl (rw over (omega arith))
        | inr fits ↦ elim (Bool-cases (day_of p.now == d)) [
          | inl k ↦ let day : day_of p.now ≡ d = ground arith in inr (rw (← day) (ground arith))
          | inr k ↦ inl (rw fits (rw k (omega arith)))
        ]
      ]
  advance_capped (writing p) h =
      inl (ground (arith, day_total-count_up d (day_of p.now) p.key db.pings))
  advance_capped (sweeping p) h = inl (
      ground
        (arith, day_total-delete_before d (oldest_kept p.now) db.pings, oldest_kept-le d p.now h))
  advance_capped (done p) h = inl (ground arith)
  advance_capped (refused status) h = inl (ground arith)
