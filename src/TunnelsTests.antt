-- ===== src/TunnelsTests.antt =====
-- Runs of the page tunnels.js on concrete entries, and the theorems about it applied to them.
use frp_manager.Base.{
  true, false, Option, none, some, List, [], ◌∷◌, same, split, trim, codes, ◌≡◌, refl,
}
use frp_manager.Base.Decimal.{decimal}
use frp_manager.Toml.Hosts.{unbracket, fix_host_port}
use frp_manager.Toml.Ports.{
  port_spec_count, is_port_spec, is_port_part, part_range, is_port_range, range_names,
}
use frp_manager.Toml.Tunnel.{
  Proxy, Visitor, has_remote_port, has_domains, is_ranged, is_visitor_ranged, split_pair, own_names,
  frpc_names, visitor_names,
}
use frp_manager.Toml.Entries.{new_proxy, new_visitor, tunnel_name_ok, count_points}
use frp_manager.Panel.Tunnels.Fields.{
  port_errors, single_errors, ranged_errors, remote_error, domain_error, domains_of,
}
use frp_manager.Panel.Tunnels.Fields.Counts.{IsCounted, port_errors-IsCounted}
use frp_manager.Panel.Tunnels.Editor.{
  ProxyForm, Submitted, submit, values_of, taken_by, wanted_names, name_error, bad_name,
  form_errors, filled_in, put_draft, entry_of,
}
use frp_manager.Panel.Tunnels.Editor.Accepted.{IsSound, submit-IsSound}
use frp_manager.Panel.Tunnels.Visitors.{
  VisitorForm, VisitorSubmitted, submit_visitor, visitor_values, visitor_name_error, bind_error,
  server_error, visitor_errors, filled_visitor, put_visitor, visitor_entry,
}
use frp_manager.Panel.Tunnels.Visitors.Accepted.{IsSoundVisitor, submit_visitor-IsSoundVisitor}
use frp_manager.Panel.Tunnels.Edits.{Lists, Click, click_all}
use frp_manager.Panel.Tunnels.Edits.Apart.{NamesAreApart, click_all-NamesAreApart}
use frp_manager.Panel.Tunnels.Page.{Page, Answer, discard}
use frp_manager.Panel.Tunnels.Dirty.{is_dirty}
use frp_manager.Panel.Tunnels.Dirty.Clean.{discard-clean}
use frp_manager.Panel.Tunnels.Save.{public_copy_value}
use frp_manager.Panel.Tunnels.Save.Copied.{public_copy_value-fixed}

abbrev web : ProxyForm
web = record {
  name = codes " web ";
  type = codes "tcp";
  local_ip = codes "[::1]";
  local_port = codes "6000-6002";
  remote_port = codes "7000 - 7002";
  domains = [];
  secret_key = [];
  proxy_protocol = [];
  encryption = false;
  compression = true;
}

abbrev web_entry : Proxy
web_entry = record (new_proxy 1) {
  name = codes "web";
  local_ip = codes "::1";
  local_port = codes "6000-6002";
  remote_port = codes "7000-7002";
  compression = true;
}

submit-web : submit none 1 web [] ≡ Submitted.accepted (web_entry ∷ [])
unfolding submit form_errors filled_in put_draft values_of taken_by wanted_names name_error bad_name
    port_errors single_errors ranged_errors remote_error domain_error domains_of frpc_names
    own_names split_pair is_ranged has_remote_port has_domains tunnel_name_ok count_points
    port_spec_count is_port_spec is_port_part part_range is_port_range range_names unbracket trim
    split same
submit-web = refl

submit-IsSound_example :
    IsSound (entry_of none 1 web) × (web_entry ∷ [] ≡ put_draft none (entry_of none 1 web) [])
submit-IsSound_example = submit-IsSound none 1 web [] (web_entry ∷ []) submit-web

range_accepted :
    ((port_errors (codes "tcp") (codes "6000-6002") (codes "7000-7002")).local ≡ none)
    × ((port_errors (codes "tcp") (codes "6000-6002") (codes "7000-7002")).remote ≡ none)
unfolding port_errors ranged_errors remote_error has_remote_port is_ranged port_spec_count
    is_port_spec is_port_part part_range is_port_range split same
range_accepted = (refl, refl)

port_errors-IsCounted_example : IsCounted (codes "tcp") (codes "6000-6002") (codes "7000-7002")
port_errors-IsCounted_example =
    port_errors-IsCounted (codes "tcp") (codes "6000-6002") (codes "7000-7002") range_accepted

-- the same local port twice: accepted, though frpc has the same name for both tunnels
repeated_port :
    ((port_errors (codes "tcp") (codes "6000,6000") (codes "7000,7001")).local ≡ none)
    × ((port_errors (codes "tcp") (codes "6000,6000") (codes "7000,7001")).remote ≡ none)
    × (frpc_names
          (record web_entry { local_port = codes "6000,6000"; remote_port = codes "7000,7001" })
        ≡ codes "web-6000" ∷ codes "web-6000" ∷ [])
unfolding port_errors ranged_errors remote_error has_remote_port is_ranged port_spec_count
    is_port_spec is_port_part part_range is_port_range split same frpc_names own_names split_pair
    range_names decimal
repeated_port = (refl, refl, refl)

abbrev guest : VisitorForm
guest = record {
  name = codes "guest";
  type = codes "stcp";
  server_name = codes "web";
  secret_key = codes "s";
  bind_addr = codes "127.0.0.1";
  bind_port = codes "9000-9002";
  server_ports = codes "6000-6002";
}

abbrev guest_entry : Visitor
guest_entry = record (new_visitor 2) {
  name = codes "guest";
  server_name = codes "web";
  secret_key = codes "s";
  bind_port = codes "9000-9002";
  server_ports = codes "6000-6002";
}

submit_visitor-guest : submit_visitor none 2 guest [] ≡ VisitorSubmitted.accepted (guest_entry ∷ [])
unfolding submit_visitor visitor_errors filled_visitor put_visitor visitor_values visitor_name_error
    bind_error server_error visitor_names is_visitor_ranged port_spec_count is_port_spec
    is_port_part part_range is_port_range range_names unbracket trim split same
submit_visitor-guest = refl

submit_visitor-IsSoundVisitor_example :
    IsSoundVisitor (visitor_entry none 2 guest)
    × (guest_entry ∷ [] ≡ put_visitor none (visitor_entry none 2 guest) [])
submit_visitor-IsSoundVisitor_example =
    submit_visitor-IsSoundVisitor none 2 guest [] (guest_entry ∷ []) submit_visitor-guest

abbrev no_entries : Lists
no_entries = record { proxies = []; visitors = []; made = 0 }

no_entries-NamesAreApart : NamesAreApart no_entries
no_entries-NamesAreApart = record {
  of_proxies = record { apart = tt; given = tt };
  of_visitors = record { apart = tt; given = tt };
}

abbrev clicks : List Click
clicks =
    Click.submits_new web
    ∷ Click.submits_new web
    ∷ Click.submits web_entry web
    ∷ Click.submits_new_visitor guest
    ∷ Click.removes web_entry
    ∷ []

click_all-NamesAreApart_example : NamesAreApart (click_all clicks no_entries)
click_all-NamesAreApart_example = click_all-NamesAreApart clicks no_entries no_entries-NamesAreApart

abbrev page : Page
page = record {
  base_text = [];
  server_addr = codes "2001:db8::1";
  base_fix = true;
  docker = false;
  proxies = web_entry ∷ [];
  visitors = [];
  snapshot = none;
  status = none;
  made = 1;
}

abbrev file_answer : Option Answer
file_answer = some (record {
  content = codes "serverAddr = \"[::1]\"\n[[proxies]]\nname = \"a\"\nlocalIP = \"[::1]\"\n";
  docker = false;
})

discard-clean_example : is_dirty true (discard file_answer page) ≡ false
discard-clean_example = discard-clean true file_answer page

abbrev ssh : Proxy
ssh = record (new_proxy 3) {
  name = codes "ssh";
  local_port = codes "22";
  remote_port = codes "6000";
}

ssh_has_port : has_remote_port ssh.type ≡ true
unfolding has_remote_port same
ssh_has_port = refl

public_copy_value-fixed_example :
    fix_host_port (public_copy_value page ssh) ≡ public_copy_value page ssh
public_copy_value-fixed_example = public_copy_value-fixed page ssh ssh_has_port refl
