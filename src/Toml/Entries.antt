-- ===== src/Toml/Entries.antt =====
-- New entries of the interface in toml.js: tunnelNameOk, randomPort, newProxy and newVisitor.
use frp_manager.Base.{
  ℕ, suc, ◌+◌, ◌%◌, Bool, true, false, not, ◌&&◌, ◌||◌, none, [], ◌∷◌, Text, if◌then◌else◌, leb,
  some_of, is_space, codes, ◌≡◌, refl,
}
use frp_manager.Base.Decimal.{decimal}
use frp_manager.Toml.Tunnel.{Proxy, Visitor}

-- `[...name].length`: a high surrogate and a low one behind it count as one character
unfoldable pub count_points : Text → ℕ
count_points [] = 0
count_points (c ∷ []) = 1
count_points (c ∷ d ∷ s) =
    let rest = count_points (d ∷ s) in
    if leb 0xd800 c && leb c 0xdbff && leb 0xdc00 d && leb d 0xdfff then rest else suc rest

-- `[\s\p{Cc}]`
abbrev pub is_bad : ℕ → Bool
is_bad c = is_space c || leb c 0x1f || (leb 0x7f c && leb c 0x9f)

-- `tunnelNameOk`
unfoldable pub tunnel_name_ok : Text → Bool
unfolding count_points
tunnel_name_ok name = leb (count_points name) 64 && not (some_of is_bad name)

-- `randomPort`; `n` is the number of 16 bits that getRandomValues gives
unfoldable pub random_port : ℕ → Text
unfolding decimal
random_port n = decimal (10000 + n % 22768)

-- `newProxy`, with the number of its `uid`
abbrev pub new_proxy : ℕ → Proxy
new_proxy uid = record {
  uid = uid;
  name = [];
  type = codes "tcp";
  local_ip = codes "127.0.0.1";
  local_port = [];
  remote_port = [];
  domains = [];
  secret_key = [];
  proxy_protocol = [];
  compression = false;
  encryption = false;
  extras = [];
  comments = [];
  notes = [];
  udp_comments = none;
  udp_notes = none;
}

-- `newVisitor`
abbrev pub new_visitor : ℕ → Visitor
new_visitor uid = record {
  uid = uid;
  name = [];
  type = codes "stcp";
  server_name = [];
  secret_key = [];
  bind_addr = codes "127.0.0.1";
  bind_port = [];
  server_ports = [];
  extras = [];
  comments = [];
  notes = [];
}

name_tests :
    (tunnel_name_ok (codes "my-game_1") ≡ true)
    × (tunnel_name_ok (codes "my game") ≡ false)
    × (count_points (0xd83d ∷ 0xde00 ∷ 97 ∷ []) ≡ 2)
unfolding tunnel_name_ok count_points
name_tests = (refl, refl, refl)
