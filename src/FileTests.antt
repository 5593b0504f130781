-- ===== src/FileTests.antt =====
-- Runs of the code of toml.js about whole files on small inputs, as applications of the theorems.
use frp_manager.Base.{
  zero, true, false, some, List, [], ◌∷◌, Text, every, is_empty, join, split, codes, All, ◌≡◌, refl,
  inl, inr,
}
use frp_manager.Base.Decimal.{decimal}
use frp_manager.Toml.Str.{action_length, str}
use frp_manager.Toml.Unquote.RoundTrip.{in_actions}
use frp_manager.Toml.Tunnel.{Proxy, tcp_udp, split_pair}
use frp_manager.Toml.Pairs.{pair_proxies}
use frp_manager.Toml.Pairs.RoundTrip.{pair_proxies-split_pair}
use frp_manager.Toml.Lines.Joined.{every-IsUnix}
use frp_manager.Toml.Parse.Line.{is_key_char}
use frp_manager.Toml.Merge.Raws.{generated_raws}
use frp_manager.Toml.Merge.Write.{merge_connection, written}
use frp_manager.Toml.Merge.Write.Untouched.{merge_connection-untouched}
use frp_manager.Toml.Connect.{pair, ServerForm, server_lines, generate_server}
use frp_manager.Toml.Connect.Raws.{is_single, IsLine, pairs_of, generated_raws-generate_server}
use frp_manager.Toml.Blocks.{multiline_string_lines}
use frp_manager.Toml.Blocks.Compose.{unbracket_connection}
use frp_manager.Toml.Blocks.Compose.Unbracket.{IsFixed, unbracket_connection-IsFixed}

abbrev some_file : Text
some_file = codes "# head\na = 1\n[log]\nto = \"x\"\n\n[[proxies]]\n"

merge_connection-untouched_example :
    merge_connection some_file (codes "[log]\nto = \"y\"\n") [] ≡ some (written some_file)
merge_connection-untouched_example =
    merge_connection-untouched some_file (codes "[log]\nto = \"y\"\n") refl
      (every-IsUnix some_file refl)

abbrev both_entry : Proxy
both_entry = record {
  uid = 1;
  name = codes "game";
  type = tcp_udp;
  local_ip = codes "::1";
  local_port = codes "25565";
  remote_port = codes "6000";
  domains = [];
  secret_key = [];
  proxy_protocol = [];
  compression = true;
  encryption = false;
  extras = [];
  comments = codes "# tcp" ∷ [];
  notes = [];
  udp_comments = some (codes "# udp" ∷ []);
  udp_notes = some [];
}

pair_proxies-split_pair_example : pair_proxies (split_pair both_entry) ≡ both_entry ∷ []
pair_proxies-split_pair_example =
    pair_proxies-split_pair both_entry (codes "# udp" ∷ []) [] refl refl refl refl refl refl

abbrev old_addresses : Text
old_addresses = codes "serverAddr = \"[::1]\"\nuser = \"[a]\""

unbracket_connection-IsFixed_example :
    (ls : List Text) × (unbracket_connection old_addresses ≡ join (codes "\n") ls)
    × IsFixed (multiline_string_lines old_addresses) (some []) 0 (split 10 old_addresses) ls
unbracket_connection-IsFixed_example = unbracket_connection-IsFixed old_addresses

text-IsLine :
    (key s : Text)
    → is_empty key ≡ false
    → every is_key_char key ≡ true
    → is_single (str s) ≡ true
    → in_actions zero s ≡ []
    → IsLine (pair key (str s))
text-IsLine key s h k l e = (h, k, l, inl (s, refl, rw e tt))

bare-IsLine :
    (key raw : Text)
    → is_empty key ≡ false
    → every is_key_char key ≡ true
    → is_empty raw ≡ false
    → every is_key_char raw ≡ true
    → is_single raw ≡ true
    → IsLine (pair key raw)
bare-IsLine key raw h k l m n = (h, k, n, inr (l, m))

abbrev some_server : ServerForm
some_server = record {
  bind_addr = codes "0.0.0.0";
  bind_port = codes "7000";
  proxy_bind_addr = [];
  kcp_enabled = false;
  kcp_bind_port = [];
  quic_enabled = false;
  quic_bind_port = [];
  vhost_http_enabled = true;
  vhost_http_port = codes "80";
  vhost_https_enabled = false;
  vhost_https_port = [];
  max_ports_per_client = [];
  auth_method = codes "token";
  auth_token = codes "a\"b";
  log_to = codes "console";
  log_level = codes "info";
  log_max_days = codes "3";
  web_enabled = false;
  web_addr = [];
  web_port = [];
  web_user = [];
  web_password = [];
  tls_enabled = false;
  tls_cert = [];
  tls_key = [];
  tls_ca = [];
  tls_force = false;
  max_pool_count = codes "8";
  heartbeat_timeout = codes "90";
}

server_lines-IsLine : All IsLine (server_lines some_server (codes "home") (codes "by"))
unfolding server_lines str action_length decimal
server_lines-IsLine = (
  (refl, refl),
  (
    tt,
    (
      text-IsLine (codes "bindAddr") (codes "0.0.0.0") refl refl refl refl,
      (
        bare-IsLine (codes "bindPort") (codes "7000") refl refl refl refl refl,
        (
          bare-IsLine (codes "vhostHTTPPort") (codes "80") refl refl refl refl refl,
          (
            tt,
            (
              refl,
              (
                text-IsLine (codes "method") (codes "token") refl refl refl refl,
                (
                  text-IsLine (codes "token") (codes "a\"b") refl refl refl refl,
                  (
                    tt,
                    (
                      refl,
                      (
                        text-IsLine (codes "to") (codes "console") refl refl refl refl,
                        (
                          text-IsLine (codes "level") (codes "info") refl refl refl refl,
                          (
                            bare-IsLine (codes "maxDays") (codes "3") refl refl refl refl refl,
                            (
                              tt,
                              (
                                refl,
                                (
                                  bare-IsLine (codes "maxPoolCount") (codes "8") refl refl refl refl
                                      refl,
                                  (
                                    bare-IsLine (codes "heartbeatTimeout") (codes "90") refl refl
                                        refl refl refl,
                                    tt,
                                  ),
                                ),
                              ),
                            ),
                          ),
                        ),
                      ),
                    ),
                  ),
                ),
              ),
            ),
          ),
        ),
      ),
    ),
  ),
)

generated_raws-generate_server_example :
    generated_raws (generate_server some_server (codes "home") (codes "by"))
    ≡ pairs_of [] [] (server_lines some_server (codes "home") (codes "by"))
generated_raws-generate_server_example =
    generated_raws-generate_server some_server (codes "home") (codes "by") server_lines-IsLine
