-- ===== src/StatsTests.antt =====
-- Runs of tools/stats-worker on small inputs, as applications of the theorems.
use frp_manager.Base.{
  ℕ, zero, suc, ◌+◌, ◌*◌, ◌≤◌, true, false, Option, none, some, List, [], ◌∷◌, Text, if◌then◌else◌,
  leb, split, same, every, length, codes, ◌≡◌, ◌≢◌, ◌↔◌, ap, refl, arith, All,
}
use frp_manager.Stats.Html.{escape_html}
use frp_manager.Stats.Html.Inert.{is_inert, shown_text, escape_html_lem}
use frp_manager.Stats.Sums.{sum_of}
use frp_manager.Stats.Version.{Body, ping_key, counted_version, is_version, is_in, archs, installs}
use frp_manager.Stats.Version.Key.{ping_key-split}
use frp_manager.Stats.Secret.{same_secret}
use frp_manager.Stats.Secret.Equality.{same_secret_iff}
use frp_manager.Stats.Access.{
  private_key, basic_password, credentials, redirect_target, retry_after, max_fails,
}
use frp_manager.Stats.Table.{count_up, counter, day_total}
use frp_manager.Stats.Ping.{
  Db, Ping, counting, checking, writing, done, refused, Request, arrive, advance, run_ping, day_of,
  per_ip_day, max_per_day,
}
use frp_manager.Stats.Ping.Alone.{run_ping_lem}
use frp_manager.Stats.Ping.Limits.{
  State, Run, begin, join, move, passed, late_sweep, accepted, about_to_write,
}
use frp_manager.Stats.Ping.Runs.{AtMost, Run_limited, Run_total, Run_capped}
use frp_manager.Stats.Gate.{recent, private_gate, statistics, Visit, Env, prive, fetch}
use frp_manager.Stats.Gate.Window.{private_gate_opens}
use frp_manager.Stats.Gate.Steps.{Caller, selecting, take_turn, Gate}
use frp_manager.Stats.Gate.Entry.{fetch_password}

abbrev some_body : Body
some_body = record {
  version = some (codes "1.4.0+dev.12");
  arch = some (codes "arm64");
  install = some (codes "apt");
}

abbrev parsed : Text → Option Body
parsed text = some some_body

abbrev some_key : Text
some_key = codes "1.4.0+dev|arm64|apt"

ping_key-split_example :
    (version : Text) × (arch : Text) × (install : Text) × (parsed (codes "{}")
      ≡ some (record { version = some version; arch = some arch; install = some install }))
    × (is_version version ≡ true)
    × (is_in archs (some arch) ≡ true)
    × (is_in installs (some install) ≡ true)
    × (split b'|' some_key ≡ counted_version version ∷ arch ∷ install ∷ [])
unfolding ping_key
ping_key-split_example = ping_key-split parsed (codes "{}") some_key refl

same_secret_iff_example :
    (same_secret (codes "ab") (codes "abc") ≡ true) ↔ (codes "ab" ≡ codes "abc")
same_secret_iff_example = same_secret_iff (codes "ab") (codes "abc")

abbrev some_ping : Ping
some_ping = record { now = 86400001; ip = codes "h"; key = some_key }

abbrev full_db : Db
full_db = record {
  ips = record { day = 1; name = codes "h"; n = 30 } ∷ [];
  pings = record { day = 1; name = some_key; n = 4999 } ∷ [];
}

abbrev busy_db : Db
busy_db = record { ips = []; pings = record { day = 1; name = some_key; n = 4999 } ∷ [] }

run_ping_lem_example : (run_ping (counting some_ping) full_db).0 ≡ (
    if leb per_ip_day (counter (day_of some_ping.now) some_ping.ip full_db.ips)
    then refused 429
    else if leb max_per_day (day_total (day_of some_ping.now) full_db.pings)
    then refused 429
    else done some_ping)
run_ping_lem_example = run_ping_lem some_ping full_db

abbrev plain_hash : Text → ℕ → Text
plain_hash address d = address

abbrev posted : Request
posted = record { method = codes "POST"; raw = codes "{}"; address = some (codes "h") }

abbrev start : State
start = record { db = busy_db; stages = [] }

arrived : arrive plain_hash parsed posted 86400001 ≡ counting some_ping
unfolding arrive ping_key day_of
arrived = refl

-- the request of `some_ping` alone, after `n` statements
abbrev after : ℕ → State
unfolding advance
after zero = record { db = busy_db; stages = counting some_ping ∷ [] }
after (suc n) = elim (after n).stages as (λ _. State) [
  | [] ↦ start
  | st ∷ _ ↦ record { db = (advance st (after n).db).1; stages = (advance st (after n).db).0 ∷ [] }
]

some_run : Run plain_hash parsed 401 (AtMost plain_hash parsed 1 1) start (after 3)
unfolding advance day_of count_up day_total counter same
some_run =
    let come = join posted 86400001 begin (omega arith) in
    let first = move [] (counting some_ping) [] come (ap (λ st. st ∷ []) arrived) (omega arith) in
    let second = move [] (checking some_ping) [] first refl (omega arith) in
    move [] (writing some_ping) [] second refl (omega arith)

Run_limited_example :
    sum_of (passed 1 (codes "h")) (after 3).stages
    ≤ 30 + 30 * sum_of (late_sweep 1) (after 3).stages
Run_limited_example =
    Run_limited plain_hash parsed 401 (AtMost plain_hash parsed 1 1) start refl 1 (codes "h")
      some_run

Run_total_example :
    day_total 1 (after 3).db.pings
    ≡ day_total 1 start.db.pings + sum_of (accepted 1) (after 3).stages
Run_total_example = Run_total plain_hash parsed 1 (AtMost plain_hash parsed 1 1) start refl some_run

busy_within : day_total 1 start.db.pings ≤ max_per_day
unfolding day_total
busy_within = omega arith

Run_capped_example :
    suc (day_total 1 (after 3).db.pings + sum_of (about_to_write 1) (after 3).stages)
    ≤ max_per_day + 1
Run_capped_example = Run_capped plain_hash parsed 1 1 start refl busy_within (omega arith) some_run

-- a password is its own hash here, and the header is the password itself
abbrev decoded : Text → Option Text
decoded base = some (codes ":pw")

abbrev own_hash : Text → Text
own_hash password = password

abbrev one_bad : Option Text
one_bad = some (codes "Basic eA==")

abbrev ten : List ℕ
ten = 1 ∷ 2 ∷ 3 ∷ 4 ∷ 5 ∷ 6 ∷ 7 ∷ 8 ∷ 9 ∷ 10 ∷ []

ten-recent : max_fails ≤ length (recent 20 ten)
ten-recent = omega arith

ten_within : length (recent 20 ten) ≤ max_fails
ten_within = omega arith

abbrev wrong_caller : Caller
wrong_caller = record { now = 20; authorization = one_bad; key = codes "k" }

abbrev closed : Gate
closed = record { fails = 2 ∷ []; turns = [] }

-- the wrong password after `n` turns
abbrev tried : ℕ → Gate
unfolding take_turn
tried zero = record { fails = 2 ∷ []; turns = selecting wrong_caller ∷ [] }
tried (suc n) = elim (tried n).turns as (λ _. Gate) [
  | [] ↦ closed
  | turn ∷ _ ↦ record {
    fails = (take_turn decoded own_hash turn (tried n).fails).1;
    turns = (take_turn decoded own_hash turn (tried n).fails).0 ∷ [];
  }
]

blocked :
    private_gate decoded own_hash one_bad (codes "k") 20 ten
    ≡ (some (record { status = 429; retry = some 600 }), ten)
unfolding private_gate retry_after
blocked = refl

ten_past : All (λ at. at ≤ 20) ten
ten_past = (
  omega arith,
  (
    omega arith,
    (
      omega arith,
      (
        omega arith,
        (
          omega arith,
          (omega arith, (omega arith, (omega arith, (omega arith, (omega arith, tt))))),
        ),
      ),
    ),
  ),
)

private_gate_opens_example :
    (private_gate decoded own_hash one_bad (codes "k") 600020 ten).0
    ≢ some (record { status = 429; retry = some 1 })
private_gate_opens_example =
    private_gate_opens decoded own_hash one_bad one_bad (codes "k") 20 600020 600 ten ten_past
      ten_within blocked (omega arith) (some 1)

-- 64 hexadecimal digits, and a hash that gives them
abbrev some_hex : Text
some_hex = codes "0123456789abcdef0123456789abcdef0123456789abcdef0123456789abcdef"

abbrev hex_hash : Text → Text
hex_hash password = some_hex

abbrev some_env : Env
some_env = record {
  prive_sha256 = some some_hex;
  old_host = codes "old.org";
  new_site = codes "https://new.org";
}

abbrev some_visit : Visit
some_visit = record {
  url = record { hostname = codes "new.org"; pathname = codes "/prive/"; search = [] };
  origin = codes "https://new.org";
  method = codes "GET";
  authorization = one_bad;
}

let_in : (fetch decoded hex_hash some_env some_visit 20 []).0 ≡ statistics false true
unfolding fetch prive private_gate basic_password credentials private_key redirect_target
    same_secret
let_in = refl

fetch_password_example :
    (key : Text) × (password : Text) × (private_key some_env.prive_sha256 ≡ some key)
    × (basic_password decoded some_visit.authorization ≡ some password)
    × (hex_hash password ≡ key)
fetch_password_example = fetch_password decoded hex_hash some_env some_visit 20 [] false true let_in

abbrev markup : Text
markup = codes "<b>&amp;'x'"

escape_html_lem_example :
    (every is_inert (escape_html markup) ≡ true) × (shown_text none (escape_html markup) ≡ markup)
escape_html_lem_example = escape_html_lem markup
