-- ===== src/Stats/Ping/Runs.antt =====
-- What holds after any number of interleaved statements of requests to /api/ping.
use frp_manager.Base.{
  ℕ, suc, ◌+◌, ◌*◌, min, ◌≤◌, ◌<◌, not, Option, none, List, [], ◌∷◌, ◌++◌, Text, if◌then◌else◌,
  same, codes, length, All, ◌≡◌, ◌⊎◌, refl, inl, inr, arith, ltb, Bool-cases, Option-cases,
}
use frp_manager.Stats.Sums.{sum_of, sum_of-append, All-at, All-put}
use frp_manager.Stats.Version.{Body, ping_key, max_body}
use frp_manager.Stats.Table.{counter, day_total}
use frp_manager.Stats.Ping.{
  Ping, Stage, counting, refused, Request, arrive, advance, day_of, max_per_day, address_of,
}
use frp_manager.Stats.Ping.Limits.{
  State, Run, begin, join, move, passed, late_sweep, accepted, about_to_write, InTime,
  advance-InTime, advance_limited, advance_total, advance_capped,
}

module _ (hash_ip : Text → ℕ → Text) (parse : Text → Option Body) where
  -- a request that comes in is refused at once, or is going to be counted at its time
  arrive-cases :
      (r : Request) (now : ℕ)
      → ((status : ℕ) × (arrive hash_ip parse r now ≡ refused status))
        ⊎ ((p : Ping) × (arrive hash_ip parse r now ≡ counting p) × (p.now ≡ now))
  unfolding arrive
  arrive-cases r now = elim (Bool-cases (not (same r.method (codes "POST")))) [
    | inl h ↦ inl (405, rw h refl)
    | inr h ↦
        elim (Option-cases (if ltb max_body (length r.raw) then none else ping_key parse r.raw)) [
          | inl e ↦ inl (400, rw h (rw (e, arrive) refl))
          | inr (k, e) ↦ inr (
            record { now = now; ip = hash_ip (address_of r.address) (day_of now); key = k },
            rw h (rw (e, arrive) refl),
            refl,
          )
        ]
  ]

  module _ (last : ℕ) (Allowed : List Stage → Type 0) (start : State)
      (fresh : start.stages ≡ []) where
    arrive-InTime :
        (r : Request) (now : ℕ) → day_of now ≤ last → InTime last (arrive hash_ip parse r now)
    arrive-InTime r now h = elim (arrive-cases r now) [
      | inl (status, e) ↦ rw e tt
      | inr (p, e, k) ↦ rw e (rw k h)
    ]

    arrive_none :
        (f : Stage → ℕ) (r : Request) (now : ℕ)
        → ((p : Ping) → f (counting p) ≡ 0)
        → ((n : ℕ) → f (refused n) ≡ 0)
        → f (arrive hash_ip parse r now) ≡ 0
    arrive_none f r now h k = elim (arrive-cases r now) [
      | inl (status, e) ↦ rw e (k status)
      | inr (p, e, _) ↦ rw e (h p)
    ]

    Run-InTime : {s : State} → Run hash_ip parse last Allowed start s → All (InTime last) s.stages
    Run-InTime begin = rw fresh tt
    Run-InTime (join r now run h) = (arrive-InTime r now h, Run-InTime run)
    Run-InTime (move {s} front st back run e ok) =
        let all : All (InTime last) (front ++ st ∷ back) = rw e at (Run-InTime {s = s} run) in
        All-put (InTime last) front st (advance st s.db).0 back
          (advance-InTime last st s.db (All-at (InTime last) front st back all)) all

    Run_counted :
        (d : ℕ) (ip : Text) {s : State}
        → Run hash_ip parse last Allowed start s
        → sum_of (passed d ip) s.stages
          ≤ 30 * sum_of (late_sweep d) s.stages + min 30 (counter d ip s.db.ips)
    Run_counted d ip begin = rw fresh (omega arith)
    Run_counted d ip (join r now run h) = omega (
      arith,
      Run_counted d ip run,
      arrive_none (passed d ip) r now (λ p. refl) (λ n. refl),
      arrive_none (late_sweep d) r now (λ p. refl) (λ n. refl),
    )
    Run_counted d ip (move {s} front st back run e ok) =
        let before : sum_of (passed d ip) (front ++ st ∷ back)
            ≤ 30 * sum_of (late_sweep d) (front ++ st ∷ back) + min 30 (counter d ip s.db.ips) =
          rw e at (Run_counted d ip {s = s} run) in
        omega (
          arith,
          before,
          sum_of-append (passed d ip) front st back,
          sum_of-append (passed d ip) front (advance st s.db).0 back,
          sum_of-append (late_sweep d) front st back,
          sum_of-append (late_sweep d) front (advance st s.db).0 back,
          advance_limited d ip s.db st,
        )

    -- However the statements of requests of any days interleave, the limit of an address lets at
    -- most 30 requests of that address pass on a day, and up to 30 more for each request of a later
    -- day that has done its housekeeping. No request was under way at the start.
    pub Run_limited :
        (d : ℕ) (ip : Text) {s : State}
        → Run hash_ip parse last Allowed start s
        → sum_of (passed d ip) s.stages ≤ 30 + 30 * sum_of (late_sweep d) s.stages
    Run_limited d ip run = omega (arith, Run_counted d ip run)

  module _ (d : ℕ) (Allowed : List Stage → Type 0) (start : State) (fresh : start.stages ≡ []) where
    -- However the statements of requests interleave, the counters of a day hold what they held at the
    -- start and one for each request of the day that has been accepted since. No request was under
    -- way then, and none is of a day more than 400 days after it.
    pub Run_total :
        {s : State}
        → Run hash_ip parse (d + 400) Allowed start s
        → day_total d s.db.pings ≡ day_total d start.db.pings + sum_of (accepted d) s.stages
    Run_total begin = rw fresh (omega arith)
    Run_total (join r now run h) = omega (
      arith,
      Run_total run,
      arrive_none (d + 400) Allowed start fresh (accepted d) r now (λ p. refl) (λ n. refl),
    )
    Run_total (move {s} front st back run e ok) =
        let all : All (InTime (d + 400)) (front ++ st ∷ back) =
          rw e at (Run-InTime (d + 400) Allowed start fresh {s = s} run) in
        let before : day_total d s.db.pings
            ≡ day_total d start.db.pings + sum_of (accepted d) (front ++ st ∷ back) =
          rw e at (Run_total {s = s} run) in
        omega (
          arith,
          before,
          sum_of-append (accepted d) front st back,
          sum_of-append (accepted d) front (advance st s.db).0 back,
          advance_total d s.db st (All-at (InTime (d + 400)) front st back all),
        )

  -- At most `c` requests of the day `d` stand between their check and their write.
  abbrev pub AtMost : ℕ → ℕ → List Stage → Type 0
  AtMost d c stages = sum_of (about_to_write d) stages ≤ c

  -- If never more than `c` requests of a day stand between the check of its limit and the write of
  -- their counter, the counters of the day go beyond 5000 by less than `c`, or not at all: one request
  -- after the other keeps to 5000. At the start no request was under way and the day was within its
  -- limit, and none is of a day more than 400 days after it.
  pub Run_capped :
      (d c : ℕ) (start : State)
      → start.stages ≡ []
      → day_total d start.db.pings ≤ max_per_day
      → 0 < c
      → {s : State} → Run hash_ip parse (d + 400) (AtMost d c) start s
      → suc (day_total d s.db.pings + sum_of (about_to_write d) s.stages) ≤ max_per_day + c
  Run_capped d c start fresh within some_c begin = rw fresh (omega arith)
  Run_capped d c start fresh within some_c (join r now run h) = omega (
    arith,
    Run_capped d c start fresh within some_c run,
    arrive_none (d + 400) (AtMost d c) start fresh (about_to_write d) r now (λ p. refl) (λ n. refl),
  )
  Run_capped d c start fresh within some_c (move {s} front st back run e ok) =
      let all : All (InTime (d + 400)) (front ++ st ∷ back) =
        rw e at (Run-InTime (d + 400) (AtMost d c) start fresh {s = s} run) in
      let before : suc (day_total d s.db.pings + sum_of (about_to_write d) (front ++ st ∷ back))
          ≤ max_per_day + c =
        rw e at (Run_capped d c start fresh within some_c {s = s} run) in
      elim (advance_capped d s.db st (All-at (InTime (d + 400)) front st back all)) [
        | inl h ↦ omega (
          arith,
          before,
          h,
          sum_of-append (about_to_write d) front st back,
          sum_of-append (about_to_write d) front (advance st s.db).0 back,
        )
        | inr h ↦ omega (arith, h, ok)
      ]
