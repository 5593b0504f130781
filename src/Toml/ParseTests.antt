-- ===== src/Toml/ParseTests.antt =====
-- Runs of `parse_lines` on small configurations.
use frp_manager.Base.{true, false, Text, List, [], ◌∷◌, codes, ◌≡◌, refl, some, none, Option}
use frp_manager.Toml.Tunnel.{Proxy}
use frp_manager.Toml.FromBlock.{proxy_from_block}
use frp_manager.Toml.Generate.{generate_proxy_lines}
use frp_manager.Toml.Parse.{Config, parse_lines}

abbrev ranged : List Text
ranged =
    codes "serverAddr = \"x\" # here"
    ∷ codes ""
    ∷ codes "# about it"
    ∷ codes "{{- range $_, $v := parseNumberRange \"6000-6001\" }}"
    ∷ codes "[[\"proxies\"]]"
    ∷ codes "\"name\" = \"rg-{{ $v }}\""
    ∷ codes "localPort = {{ $v }}"
    ∷ codes "[proxies.plugin]"
    ∷ codes "list = [ 1,  # one"
    ∷ codes "  2 ]"
    ∷ codes "{{- end }}"
    ∷ codes "[webServer]"
    ∷ codes "port = 7_400"
    ∷ []

parse_ranged :
    parse_lines ranged
    ≡ some (record {
      values = (codes "serverAddr", codes "x") ∷ (codes "webServer.port", codes "7_400") ∷ [];
      proxies_read =
          record {
            values =
                (codes "name", codes "rg-{{ $v }}")
                ∷ (codes "localPort", codes "{{ $v }}")
                ∷ (codes "plugin.list", codes "[ 1,\n2 ]")
                ∷ [];
            raw =
                (codes "name", codes "\"rg-{{ $v }}\"")
                ∷ (codes "localPort", codes "{{ $v }}")
                ∷ (codes "plugin.list", codes "[ 1,\n2 ]")
                ∷ [];
            order = codes "name" ∷ codes "localPort" ∷ codes "plugin.list" ∷ [];
            comments = codes "# about it" ∷ [];
            notes = (codes "plugin.list", record { before = codes "# one" ∷ []; eol = [] }) ∷ [];
            range = some (record { local = codes "6000-6001"; remote = [] });
          }
          ∷ [];
      visitors_read = [];
      trailing = [];
    })
unfolding parse_lines
parse_ranged = refl

abbrev tunnel : Proxy
tunnel = record {
  uid = 3;
  name = codes "web \"1\"";
  type = codes "http";
  local_ip = codes "[::1]";
  local_port = codes "8080-8081";
  remote_port = [];
  domains = codes "a-{port}.example.com, b.example.com";
  secret_key = [];
  proxy_protocol = codes "v2";
  compression = true;
  encryption = false;
  extras = (codes "plugin.x", codes "[ 1 ]") ∷ [];
  comments = codes "# about it" ∷ [];
  notes = (codes "name", record { before = codes "# its name" ∷ []; eol = codes "# n" }) ∷ [];
  udp_comments = none;
  udp_notes = none;
}

tunnel_text :
    generate_proxy_lines tunnel
    ≡ codes "# about it"
      ∷ codes "{{- range $_, $v := parseNumberRange \"8080-8081\" }}"
      ∷ codes "[[proxies]]"
      ∷ codes "# its name"
      ∷ codes "name = \"web \\\"1\\\"-{{ $v }}\" # n"
      ∷ codes "type = \"http\""
      ∷ codes "localIP = \"::1\""
      ∷ codes "localPort = {{ $v }}"
      ∷ codes "customDomains = [\"a-{{ $v }}.example.com\", \"b.example.com\"]"
      ∷ codes "transport.useCompression = true"
      ∷ codes "transport.proxyProtocolVersion = \"v2\""
      ∷ codes "plugin.x = [ 1 ]"
      ∷ codes "{{- end }}"
      ∷ []
unfolding generate_proxy_lines
tunnel_text = refl

abbrev first_proxy : Option Config → Option Proxy
first_proxy none = none
first_proxy (some c) = elim c.proxies_read [ [] ↦ none | b ∷ _ ↦ some (proxy_from_block 3 b) ]

tunnel_back :
    first_proxy (parse_lines (generate_proxy_lines tunnel))
    ≡ some (record tunnel { local_ip = codes "::1"; comments = [] })
unfolding generate_proxy_lines parse_lines proxy_from_block
tunnel_back = refl
