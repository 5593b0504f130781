-- ===== src/Stats/Ping/Alone.antt =====
-- A request to /api/ping that no other interrupts.
use frp_manager.Base.{suc, leb, ltb, if◌then◌else◌, same_refl, ◌≡◌, arith, Bool-cases, inl, inr}
use frp_manager.Stats.Table.{counter, day_total, count_up}
use frp_manager.Stats.Table.Counts.{counter-count_up}
use frp_manager.Stats.Ping.{
  Db, Ping, counting, done, refused, advance, run_ping, day_of, per_ip_day, max_per_day,
}

-- A ping that runs alone is accepted exactly if its address has fewer than 30 pings on that day,
-- refused ones included, and the day has fewer than 5000 accepted ones. Else it is refused with the
-- status 429.
pub run_ping_lem :
    (p : Ping) (db : Db)
    → (run_ping (counting p) db).0 ≡ (
        if leb per_ip_day (counter (day_of p.now) p.ip db.ips)
        then refused 429
        else if leb max_per_day (day_total (day_of p.now) db.pings)
        then refused 429
        else done p)
unfolding run_ping advance
run_ping_lem p db =
    let seen : counter (day_of p.now) p.ip (count_up (day_of p.now) p.ip db.ips)
        ≡ suc (counter (day_of p.now) p.ip db.ips) =
      ground
        (arith, counter-count_up (day_of p.now) (day_of p.now) p.ip p.ip db.ips, same_refl p.ip) in
    elim (Bool-cases
      (ltb per_ip_day (counter (day_of p.now) p.ip (count_up (day_of p.now) p.ip db.ips)))) [
        | inl over ↦ rw over (ground (arith, seen))
        | inr fits ↦
            rw fits (elim (Bool-cases (leb max_per_day (day_total (day_of p.now) db.pings))) [
              | inl full ↦ rw full (ground (arith, seen))
              | inr room ↦ rw room (ground (arith, seen))
            ])
      ]
