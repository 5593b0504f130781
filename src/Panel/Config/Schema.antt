-- ===== src/Panel/Config/Schema.antt =====
-- The schema of the form in panel/templates/assets/js/pages/config.js: `SCHEMA`.
use frp_manager.Base.{Bool, true, false, Option, none, some, List, [], ◌∷◌, Text, codes}

-- `kind`, with the options of a choice; an address is a text with `addr`, and a number is treated as
-- a text.
pub data FieldKind : Type 0 where
  text : FieldKind
  address : FieldKind
  secret : FieldKind
  select : List Text → FieldKind
  switch : FieldKind

pub record Field : Type 0 where
  pub name : Text
  pub key : Text
  pub kind : FieldKind
  pub def : Text
  pub optional_toggle : Option Text

-- `toggle` is the name and the key of the switch of the section.
pub record Section : Type 0 where
  pub advanced : Bool
  pub toggle : Option (Text × Text)
  pub fields : List Field

pub data Role : Type 0 where
  frps : Role
  frpc : Role

abbrev a_field : FieldKind → Text → Text → Text → Field
a_field kind name key def = record {
  name = name;
  key = key;
  kind = kind;
  def = def;
  optional_toggle = none;
}

-- a port behind a switch
abbrev optional : Text → Text → Text → Text → Field
optional toggle name key def = record (a_field FieldKind.text name key def) {
  optional_toggle = some toggle;
}

abbrev log_levels : List Text
log_levels = codes "trace" ∷ codes "debug" ∷ codes "info" ∷ codes "warn" ∷ codes "error" ∷ []

-- `SCHEMA.frps`
unfoldable pub server_sections : List Section
server_sections =
    record {
      advanced = false;
      toggle = none;
      fields =
          a_field FieldKind.text (codes "bindPort") (codes "bindPort") (codes "7000")
          ∷ a_field FieldKind.address (codes "bindAddr") (codes "bindAddr") (codes "0.0.0.0")
          ∷ a_field FieldKind.address (codes "proxyBindAddr") (codes "proxyBindAddr") (codes "")
          ∷ [];
    }
    ∷ record {
      advanced = false;
      toggle = none;
      fields =
          a_field (FieldKind.select (codes "token" ∷ codes "oidc" ∷ [])) (codes "authMethod")
            (codes "auth.method") (codes "token")
          ∷ a_field FieldKind.secret (codes "authToken") (codes "auth.token") (codes "")
          ∷ [];
    }
    ∷ record {
      advanced = false;
      toggle = some (codes "webEnabled", codes "webServer.port");
      fields =
          a_field FieldKind.text (codes "webPort") (codes "webServer.port") (codes "7500")
          ∷ a_field FieldKind.address (codes "webAddr") (codes "webServer.addr") (codes "0.0.0.0")
          ∷ a_field FieldKind.text (codes "webUser") (codes "webServer.user") (codes "admin")
          ∷ a_field FieldKind.secret (codes "webPassword") (codes "webServer.password") (codes "")
          ∷ [];
    }
    ∷ record {
      advanced = true;
      toggle = some (codes "tlsEnabled", codes "transport.tls.certFile");
      fields =
          a_field FieldKind.text (codes "tlsCert") (codes "transport.tls.certFile") (codes "")
          ∷ a_field FieldKind.text (codes "tlsKey") (codes "transport.tls.keyFile") (codes "")
          ∷ a_field FieldKind.text (codes "tlsCa") (codes "transport.tls.trustedCaFile") (codes "")
          ∷ a_field FieldKind.switch (codes "tlsForce") (codes "transport.tls.force") (codes "")
          ∷ [];
    }
    ∷ record {
      advanced = true;
      toggle = none;
      fields =
          optional (codes "kcpEnabled") (codes "kcpBindPort") (codes "kcpBindPort") (codes "7000")
          ∷ optional (codes "quicEnabled") (codes "quicBindPort") (codes "quicBindPort")
              (codes "7002")
          ∷ optional (codes "vhostHttpEnabled") (codes "vhostHTTPPort") (codes "vhostHTTPPort")
              (codes "80")
          ∷ optional (codes "vhostHttpsEnabled") (codes "vhostHTTPSPort") (codes "vhostHTTPSPort")
              (codes "443")
          ∷ [];
    }
    ∷ record {
      advanced = true;
      toggle = none;
      fields =
          a_field FieldKind.text (codes "maxPortsPerClient") (codes "maxPortsPerClient") (codes "0")
          ∷ a_field FieldKind.text (codes "maxPoolCount") (codes "transport.maxPoolCount")
              (codes "5")
          ∷ a_field FieldKind.text (codes "heartbeatTimeout") (codes "transport.heartbeatTimeout")
              (codes "90")
          ∷ [];
    }
    ∷ record {
      advanced = true;
      toggle = none;
      fields =
          a_field FieldKind.text (codes "logTo") (codes "log.to") (codes "/var/log/frp/frps.log")
          ∷ a_field (FieldKind.select (log_levels)) (codes "logLevel") (codes "log.level")
              (codes "info")
          ∷ a_field FieldKind.text (codes "logMaxDays") (codes "log.maxDays") (codes "3")
          ∷ [];
    }
    ∷ []

-- `SCHEMA.frpc`
unfoldable pub client_sections : List Section
client_sections =
    record {
      advanced = false;
      toggle = none;
      fields =
          a_field FieldKind.address (codes "serverAddr") (codes "serverAddr") (codes "")
          ∷ a_field FieldKind.text (codes "serverPort") (codes "serverPort") (codes "7000")
          ∷ a_field
              (FieldKind.select
                (codes "tcp" ∷ codes "kcp" ∷ codes "quic" ∷ codes "websocket" ∷ codes "wss" ∷ []))
              (codes "protocol") (codes "transport.protocol") (codes "tcp")
          ∷ [];
    }
    ∷ record {
      advanced = false;
      toggle = none;
      fields =
          a_field (FieldKind.select (codes "token" ∷ codes "oidc" ∷ [])) (codes "authMethod")
            (codes "auth.method") (codes "token")
          ∷ a_field FieldKind.secret (codes "authToken") (codes "auth.token") (codes "")
          ∷ [];
    }
    ∷ record {
      advanced = true;
      toggle = some (codes "tlsEnabled", codes "transport.tls.certFile");
      fields =
          a_field FieldKind.text (codes "tlsCert") (codes "transport.tls.certFile") (codes "")
          ∷ a_field FieldKind.text (codes "tlsKey") (codes "transport.tls.keyFile") (codes "")
          ∷ a_field FieldKind.text (codes "tlsCa") (codes "transport.tls.trustedCaFile") (codes "")
          ∷ a_field FieldKind.text (codes "tlsServerName") (codes "transport.tls.serverName")
              (codes "")
          ∷ [];
    }
    ∷ record {
      advanced = true;
      toggle = some (codes "webEnabled", codes "webServer.port");
      fields =
          a_field FieldKind.text (codes "webPort") (codes "webServer.port") (codes "7400")
          ∷ a_field FieldKind.address (codes "webAddr") (codes "webServer.addr") (codes "127.0.0.1")
          ∷ a_field FieldKind.text (codes "webUser") (codes "webServer.user") (codes "admin")
          ∷ a_field FieldKind.secret (codes "webPassword") (codes "webServer.password") (codes "")
          ∷ [];
    }
    ∷ record {
      advanced = true;
      toggle = none;
      fields =
          a_field FieldKind.text (codes "poolCount") (codes "transport.poolCount") (codes "5")
          ∷ a_field FieldKind.text (codes "heartbeatInterval") (codes "transport.heartbeatInterval")
              (codes "30")
          ∷ a_field FieldKind.address (codes "dnsServer") (codes "dnsServer") (codes "")
          ∷ a_field FieldKind.text (codes "proxyURL") (codes "transport.proxyURL") (codes "")
          ∷ [];
    }
    ∷ record {
      advanced = true;
      toggle = none;
      fields =
          a_field FieldKind.text (codes "logTo") (codes "log.to") (codes "/var/log/frp/frpc.log")
          ∷ a_field (FieldKind.select (log_levels)) (codes "logLevel") (codes "log.level")
              (codes "info")
          ∷ a_field FieldKind.text (codes "logMaxDays") (codes "log.maxDays") (codes "3")
          ∷ [];
    }
    ∷ []

-- `SCHEMA[S.type]`
unfoldable pub sections_of : Role → List Section
unfolding server_sections client_sections
sections_of Role.frps = server_sections
sections_of Role.frpc = client_sections
