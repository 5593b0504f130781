-- ===== src/Panel/Config/Generated.antt =====
-- The file that save of config.js generates from the values of the form.
use frp_manager.Base.{Bool, false, some, [], Text, codes}
use frp_manager.Base.Dict.{Dict, lookup}
use frp_manager.Toml.Connect.{ServerForm, ClientForm, generate_server, generate_client}
use frp_manager.Panel.Config.Schema.{Role}
use frp_manager.Panel.Config.Form.{Control}

-- the values that generateServer and generateClient read
abbrev pub text_of : Dict Control → Text → Text
text_of v name = elim (lookup name v) [ some (Control.line s) ↦ s | _ ↦ [] ]

abbrev pub flag_of : Dict Control → Text → Bool
flag_of v name = elim (lookup name v) [ some (Control.box b) ↦ b | _ ↦ false ]

unfoldable pub server_form : Dict Control → ServerForm
unfolding lookup
server_form v = record {
  bind_addr = text_of v (codes "bindAddr");
  bind_port = text_of v (codes "bindPort");
  proxy_bind_addr = text_of v (codes "proxyBindAddr");
  kcp_enabled = flag_of v (codes "kcpEnabled");
  kcp_bind_port = text_of v (codes "kcpBindPort");
  quic_enabled = flag_of v (codes "quicEnabled");
  quic_bind_port = text_of v (codes "quicBindPort");
  vhost_http_enabled = flag_of v (codes "vhostHttpEnabled");
  vhost_http_port = text_of v (codes "vhostHTTPPort");
  vhost_https_enabled = flag_of v (codes "vhostHttpsEnabled");
  vhost_https_port = text_of v (codes "vhostHTTPSPort");
  max_ports_per_client = text_of v (codes "maxPortsPerClient");
  auth_method = text_of v (codes "authMethod");
  auth_token = text_of v (codes "authToken");
  log_to = text_of v (codes "logTo");
  log_level = text_of v (codes "logLevel");
  log_max_days = text_of v (codes "logMaxDays");
  web_enabled = flag_of v (codes "webEnabled");
  web_addr = text_of v (codes "webAddr");
  web_port = text_of v (codes "webPort");
  web_user = text_of v (codes "webUser");
  web_password = text_of v (codes "webPassword");
  tls_enabled = flag_of v (codes "tlsEnabled");
  tls_cert = text_of v (codes "tlsCert");
  tls_key = text_of v (codes "tlsKey");
  tls_ca = text_of v (codes "tlsCa");
  tls_force = flag_of v (codes "tlsForce");
  max_pool_count = text_of v (codes "maxPoolCount");
  heartbeat_timeout = text_of v (codes "heartbeatTimeout");
}

unfoldable pub client_form : Dict Control → ClientForm
unfolding lookup
client_form v = record {
  server_addr = text_of v (codes "serverAddr");
  server_port = text_of v (codes "serverPort");
  dns_server = text_of v (codes "dnsServer");
  auth_method = text_of v (codes "authMethod");
  auth_token = text_of v (codes "authToken");
  log_to = text_of v (codes "logTo");
  log_level = text_of v (codes "logLevel");
  log_max_days = text_of v (codes "logMaxDays");
  pool_count = text_of v (codes "poolCount");
  heartbeat_interval = text_of v (codes "heartbeatInterval");
  protocol = text_of v (codes "protocol");
  proxy_url = text_of v (codes "proxyURL");
  tls_enabled = flag_of v (codes "tlsEnabled");
  tls_cert = text_of v (codes "tlsCert");
  tls_key = text_of v (codes "tlsKey");
  tls_ca = text_of v (codes "tlsCa");
  tls_server_name = text_of v (codes "tlsServerName");
  web_enabled = flag_of v (codes "webEnabled");
  web_addr = text_of v (codes "webAddr");
  web_port = text_of v (codes "webPort");
  web_user = text_of v (codes "webUser");
  web_password = text_of v (codes "webPassword");
}

-- `generated`
unfoldable pub generated_for : Role → Dict Control → Text → Text → Text
unfolding generate_server generate_client server_form client_form
generated_for Role.frps v iid by = generate_server (server_form v) iid by
generated_for Role.frpc v iid by = generate_client (client_form v) iid by
