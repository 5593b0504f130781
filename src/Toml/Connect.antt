-- ===== src/Toml/Connect.antt =====
-- The connection part that toml.js writes: generateServer and generateClient.
pub mod Raws
use frp_manager.Base.{
  ℕ, Bool, true, false, not, ◌&&◌, ◌||◌, some, List, [], ◌∷◌, ◌++◌, map, Text, ◌==◌, if◌then◌else◌,
  ltb, is_empty, same, join, codes,
}
use frp_manager.Base.Decimal.{decimal, number_of}
use frp_manager.Toml.Str.{str}
use frp_manager.Toml.Hosts.{unbracket}
use frp_manager.Toml.Generate.{pair_line, filled}

-- The lines that are pushed to `L`.
pub data Line : Type 0 where
  gap : Line
  title : Text → Line
  section : Text → Line
  pair : Text → Text → Line

abbrev pub line_text : Line → Text
line_text gap = []
line_text (title text) = text
line_text (section name) = b'[' ∷ (name ++ codes "]")
line_text (pair key raw) = pair_line key raw

-- `if (test) L.push(…)`
abbrev pub lines_if : Bool → List Line → List Line
lines_if test ls = if test then ls else []

-- The values of the form for a server. Fields of numbers hold texts of digits.
pub record ServerForm : Type 0 where
  pub bind_addr : Text
  pub bind_port : Text
  pub proxy_bind_addr : Text
  pub kcp_enabled : Bool
  pub kcp_bind_port : Text
  pub quic_enabled : Bool
  pub quic_bind_port : Text
  pub vhost_http_enabled : Bool
  pub vhost_http_port : Text
  pub vhost_https_enabled : Bool
  pub vhost_https_port : Text
  pub max_ports_per_client : Text
  pub auth_method : Text
  pub auth_token : Text
  pub log_to : Text
  pub log_level : Text
  pub log_max_days : Text
  pub web_enabled : Bool
  pub web_addr : Text
  pub web_port : Text
  pub web_user : Text
  pub web_password : Text
  pub tls_enabled : Bool
  pub tls_cert : Text
  pub tls_key : Text
  pub tls_ca : Text
  pub tls_force : Bool
  pub max_pool_count : Text
  pub heartbeat_timeout : Text

-- The values of the form for a client.
pub record ClientForm : Type 0 where
  pub server_addr : Text
  pub server_port : Text
  pub dns_server : Text
  pub auth_method : Text
  pub auth_token : Text
  pub log_to : Text
  pub log_level : Text
  pub log_max_days : Text
  pub pool_count : Text
  pub heartbeat_interval : Text
  pub protocol : Text
  pub proxy_url : Text
  pub tls_enabled : Bool
  pub tls_cert : Text
  pub tls_key : Text
  pub tls_ca : Text
  pub tls_server_name : Text
  pub web_enabled : Bool
  pub web_addr : Text
  pub web_port : Text
  pub web_user : Text
  pub web_password : Text

-- `${key} = ${str(value)}`
abbrev text_pair : Text → Text → Line
text_pair key value = pair key (str value)

abbrev address_pair : Text → Text → Line
address_pair key value = pair key (str (unbracket (some value)))

-- the first line; `name` is the instance, and `by` the end of the line in the user's language
abbrev head_lines : Text → Text → List Line
head_lines name by = title (codes "# " ++ (name ++ (codes ".toml — " ++ by))) ∷ gap ∷ []

-- the tables that servers and clients share
abbrev auth_lines : Text → Text → List Line
auth_lines method token =
    gap
    ∷ section (codes "auth")
    ∷ text_pair (codes "method") method
    ∷ lines_if (filled token) (text_pair (codes "token") token ∷ [])

abbrev log_lines : Text → Text → Text → List Line
log_lines to level days =
    gap
    ∷ section (codes "log")
    ∷ text_pair (codes "to") to
    ∷ text_pair (codes "level") level
    ∷ pair (codes "maxDays") days
    ∷ []

abbrev web_lines : Bool → Text → Text → Text → Text → List Line
web_lines enabled addr port user password = lines_if enabled (
    gap
    ∷ section (codes "webServer")
    ∷ address_pair (codes "addr") addr
    ∷ pair (codes "port") port
    ∷ (lines_if (filled user) (text_pair (codes "user") user ∷ [])
        ++ lines_if (filled password) (text_pair (codes "password") password ∷ [])))

-- the lines of `generateServer`
unfoldable pub server_lines : ServerForm → Text → Text → List Line
unfolding str unbracket decimal
server_lines v name by =
    let pool = number_of v.max_pool_count in
    let timeout = number_of v.heartbeat_timeout in
    head_lines name by
    ++ (address_pair (codes "bindAddr") v.bind_addr
        ∷ pair (codes "bindPort") v.bind_port
        ∷ (lines_if (filled v.proxy_bind_addr)
              (address_pair (codes "proxyBindAddr") v.proxy_bind_addr ∷ [])
            ++ (lines_if v.kcp_enabled (pair (codes "kcpBindPort") v.kcp_bind_port ∷ [])
                ++ (lines_if v.quic_enabled (pair (codes "quicBindPort") v.quic_bind_port ∷ [])
                    ++ (lines_if v.vhost_http_enabled
                          (pair (codes "vhostHTTPPort") v.vhost_http_port ∷ [])
                        ++ (lines_if v.vhost_https_enabled
                              (pair (codes "vhostHTTPSPort") v.vhost_https_port ∷ [])
                            ++ (lines_if (ltb 0 (number_of v.max_ports_per_client))
                                  (pair (codes "maxPortsPerClient") v.max_ports_per_client ∷ [])
                                ++ (auth_lines v.auth_method v.auth_token
                                    ++ (log_lines v.log_to v.log_level v.log_max_days
                                        ++ (web_lines v.web_enabled v.web_addr v.web_port v.web_user
                                              v.web_password
                                            ++ (lines_if v.tls_enabled (
                                                  gap
                                                  ∷ section (codes "transport.tls")
                                                  ∷ text_pair (codes "certFile") v.tls_cert
                                                  ∷ text_pair (codes "keyFile") v.tls_key
                                                  ∷ (lines_if (filled v.tls_ca) (
                                                        text_pair (codes "trustedCaFile") v.tls_ca
                                                        ∷ [])
                                                      ++ lines_if v.tls_force (
                                                          pair (codes "force") (codes "true")
                                                          ∷ [])))
                                                ++ lines_if (not (pool == 5) || not (timeout == 90))
                                                    (gap
                                                      ∷ section (codes "transport")
                                                      ∷ pair (codes "maxPoolCount") (decimal pool)
                                                      ∷ pair (codes "heartbeatTimeout")
                                                          (decimal timeout)
                                                      ∷ []))))))))))))

-- the lines of `generateClient`
unfoldable pub client_lines : ClientForm → Text → Text → List Line
unfolding str unbracket decimal same
client_lines v name by =
    let pool = number_of v.pool_count in
    let interval = number_of v.heartbeat_interval in
    let other = not (same v.protocol (codes "tcp")) in
    head_lines name by
    ++ (address_pair (codes "serverAddr") v.server_addr
        ∷ pair (codes "serverPort") v.server_port
        ∷ (lines_if (filled v.dns_server) (address_pair (codes "dnsServer") v.dns_server ∷ [])
            ++ (auth_lines v.auth_method v.auth_token
                ++ (log_lines v.log_to v.log_level v.log_max_days
                    ++ (lines_if
                          (other
                            || filled v.proxy_url
                            || not (pool == 5)
                            || not (interval == 30)
                            || v.tls_enabled)
                          (gap
                            ∷ section (codes "transport")
                            ∷ (lines_if other (text_pair (codes "protocol") v.protocol ∷ [])
                                ++ (lines_if (filled v.proxy_url)
                                      (text_pair (codes "proxyURL") v.proxy_url ∷ [])
                                    ++ (lines_if (not (pool == 5))
                                          (pair (codes "poolCount") (decimal pool) ∷ [])
                                        ++ lines_if (not (interval == 30)) (
                                            pair (codes "heartbeatInterval") (decimal interval)
                                            ∷ [])))))
                        ++ (lines_if v.tls_enabled (
                              gap
                              ∷ section (codes "transport.tls")
                              ∷ text_pair (codes "certFile") v.tls_cert
                              ∷ text_pair (codes "keyFile") v.tls_key
                              ∷ (lines_if (filled v.tls_ca)
                                    (text_pair (codes "trustedCaFile") v.tls_ca ∷ [])
                                  ++ lines_if (filled v.tls_server_name)
                                      (text_pair (codes "serverName") v.tls_server_name ∷ [])))
                            ++ web_lines v.web_enabled v.web_addr v.web_port v.web_user
                                v.web_password))))))

-- `${L.join('\n')}\n`
unfoldable pub written_lines : List Line → Text
unfolding join
written_lines ls = join (codes "\n") (map line_text ls) ++ codes "\n"

-- `generateServer` and `generateClient`
unfoldable pub generate_server : ServerForm → Text → Text → Text
unfolding server_lines written_lines
generate_server v name by = written_lines (server_lines v name by)

unfoldable pub generate_client : ClientForm → Text → Text → Text
unfolding client_lines written_lines
generate_client v name by = written_lines (client_lines v name by)
