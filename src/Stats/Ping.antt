-- ===== src/Stats/Ping.antt =====
-- The handler of /api/ping in tools/stats-worker/worker.js. It waits for the database between its
-- statements, where other requests go on: each of its stages is what it has still to do.
pub mod Alone
pub mod Limits
pub mod Runs
use frp_manager.Base.{
  ℕ, suc, zero, ◌+◌, ◌-◌, ◌/◌, ◌*◌, Bool, true, false, not, ◌&&◌, Option, none, some, is_some, List,
  [], ◌∷◌, Text, leb, ltb, if◌then◌else◌, length, same, codes,
}
use frp_manager.Stats.Version.{Body, ping_key, max_body}
use frp_manager.Stats.Table.{Row, Table, count_up, counter, day_total, delete_before}

abbrev pub keep_days : ℕ
keep_days = 400

abbrev pub per_ip_day : ℕ
per_ip_day = 30

abbrev pub max_per_day : ℕ
max_per_day = 5000

-- `dayOf` of a time in milliseconds
unfoldable pub day_of : ℕ → ℕ
day_of ms = ms / 86400000

-- `oldestKept`
unfoldable pub oldest_kept : ℕ → ℕ
unfolding day_of
oldest_kept ms = day_of (ms - keep_days * 86400000)

pub record Db : Type 0 where
  pub ips : Table
  pub pings : Table

-- A ping that has passed the first checks: its time, the hash of its address, and its counter.
pub record Ping : Type 0 where
  pub now : ℕ
  pub ip : Text
  pub key : Text

-- What a request has still to do. A request that is sweeping has been answered with 204, and has
-- the housekeeping to do; one that is done has done it too. A refused one has its status.
pub data Stage : Type 0 where
  counting checking writing sweeping done : Ping → Stage
  refused : ℕ → Stage

pub record Request : Type 0 where
  pub method : Text
  pub raw : Text
  pub address : Option Text

-- `request.headers.get('CF-Connecting-IP') || 'inconnue'`
abbrev pub address_of : Option Text → Text
address_of none = codes "inconnue"
address_of (some []) = codes "inconnue"
address_of (some (c ∷ s)) = c ∷ s

-- The checks of a request that comes in at the time `now`. `hash_ip` is the salted hash of an
-- address and a day, and `parse` is what `pingKey` uses of JSON.parse.
unfoldable pub arrive : (Text → ℕ → Text) → (Text → Option Body) → Request → ℕ → Stage
unfolding ping_key same day_of
arrive hash_ip parse r now =
    let key = if ltb max_body (length r.raw) then none else ping_key parse r.raw in
    if not (same r.method (codes "POST")) then refused 405 else elim key [
      | none ↦ refused 400
      | some k ↦
          counting (record { now = now; ip = hash_ip (address_of r.address) (day_of now); key = k })
    ]

-- the next statement of a request: the new stage and the new database
unfoldable pub advance : Stage → Db → Stage × Db
advance (counting p) db =
    let ips = count_up (day_of p.now) p.ip db.ips in
    let seen = counter (day_of p.now) p.ip ips in
    (if ltb per_ip_day seen then refused 429 else checking p, record db { ips = ips })
advance (checking p) db =
    (if leb max_per_day (day_total (day_of p.now) db.pings) then refused 429 else writing p, db)
advance (writing p) db = (sweeping p, record db { pings = count_up (day_of p.now) p.key db.pings })
advance (sweeping p) db = (
  done p,
  record {
    ips = delete_before (day_of p.now) db.ips;
    pings = delete_before (oldest_kept p.now) db.pings;
  },
)
advance (done p) db = (done p, db)
advance (refused status) db = (refused status, db)

-- all statements of a request, one after the other
unfoldable pub run_ping : Stage → Db → Stage × Db
unfolding advance
run_ping s db =
    let (s₁, db₁) = advance s db in
    let (s₂, db₂) = advance s₁ db₁ in let (s₃, db₃) = advance s₂ db₂ in advance s₃ db₃
