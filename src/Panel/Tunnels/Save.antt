-- ===== src/Panel/Tunnels/Save.antt =====
-- save and loadStatus of tunnels.js, and the public address of a tunnel: publicEndpoint and
-- publicCopyValue. An answer of the panel is `none` where the request fails.
pub mod Copied
use frp_manager.Base.{
  ℕ, Bool, true, false, not, ◌&&◌, ◌||◌, Option, none, some, is_some, List, [], ◌∷◌, ◌++◌, Text,
  if◌then◌else◌, ◌>>=◌, every, some_of, is_empty, codes, ◌==◌,
}
use frp_manager.Base.Decimal.{is_digit}
use frp_manager.Base.Dict.{lookup}
use frp_manager.Toml.Hosts.{join_host_port, fix_host_port, is_colon}
use frp_manager.Toml.Tunnel.{Proxy, has_remote_port, has_domains, is_ranged}
use frp_manager.Toml.Blocks.Compose.{compose_client_config}
use frp_manager.Panel.Tunnels.Page.{Page, Status, Answer, take_snapshot, load}

-- The answer to the file that save posts.
pub data Posted : Type 0 where
  lost : Posted
  refused : Posted
  stored : Posted

-- `content`, from the current file where it is read again; `none` where composeClientConfig throws
unfoldable pub content_of : Option Text → Page → Option Text
content_of current s =
    let base : Text = elim current [ none ↦ s.base_text | some c ↦ c ] in
    compose_client_config base s.proxies s.visitors

-- what follows composeClientConfig in save, without a restart; `answer` is that of the loading
unfoldable pub after_content : Option Text → Posted → Option Answer → Page → Page
after_content none posted answer s = load false answer s
after_content (some content) Posted.lost answer s = load false answer s
after_content (some content) Posted.refused answer s = s
after_content (some content) Posted.stored answer s =
    load false answer (take_snapshot (record s { base_text = content }))

-- `save(false)`
unfoldable pub save : Option Text → Posted → Option Answer → Page → Page
unfolding content_of after_content
save current posted answer s = after_content (content_of current s) posted answer s

-- `serverPicked`
unfoldable pub server_picked : Proxy → Bool
unfolding has_remote_port
server_picked p = has_remote_port p.type && is_empty p.remote_port

-- `S.status?.proxies?.[p.name]?.remote_addr || ''`
unfoldable pub live_address : Page → Proxy → Text
unfolding lookup
live_address s p = elim s.status [
  | none ↦ []
  | some st ↦ elim (lookup p.name st.addresses) [ none ↦ [] | some a ↦ a ]
]

-- `loadStatus` once the answer is there, and its `pending`
unfoldable pub show_status : Option Status → Page → Page
show_status answer s = record s { status = answer }

unfoldable pub is_pending : Page → Bool
unfolding server_picked live_address
is_pending s = elim s.status [
  | none ↦ false
  | some st ↦
      st.reachable && some_of (λ p. server_picked p && is_empty (live_address s p)) s.proxies
]

-- `/^:\d+$/`
abbrev pub is_bare_port : Text → Bool
is_bare_port [] = false
is_bare_port (c ∷ s) = c == b':' && not (is_empty s) && every is_digit s

abbrev pub behind_colon : Text → Text
behind_colon [] = []
behind_colon (c ∷ s) = s

-- the address of an open port, joined with that of the server if there is one
unfoldable pub with_server : Page → Text → Text
with_server s port = if is_empty s.server_addr then [] else join_host_port s.server_addr port

-- `publicCopyValue` of a type with a public port
unfoldable pub copied_port : Page → Proxy → Text
unfolding with_server
copied_port s p =
    let live = live_address s p in
    if not (is_empty p.remote_port)
    then with_server s p.remote_port
    else if is_bare_port live
    then with_server s (behind_colon live)
    else fix_host_port live

-- `publicCopyValue`
unfoldable pub public_copy_value : Page → Proxy → Text
public_copy_value s p =
    if is_ranged p
    then []
    else if has_remote_port p.type
    then copied_port s p
    else if has_domains p.type
        && not (is_empty p.domains)
        && not (some_of (λ c. c == b',') p.domains)
    then p.domains
    else []

abbrev pub or_text : Text → Text → Text
or_text a b = if is_empty a then b else a

-- `publicEndpoint`; the parameters are the translations of tunnels.server, tunnels.randomPort,
-- tunnels.noDomain and tunnels.privateOnly
module _ (server random_port no_domain private_only : Text) where
  unfoldable pub public_endpoint : Page → Proxy → Text
  unfolding has_remote_port has_domains join_host_port fix_host_port live_address
  public_endpoint s p =
      if has_remote_port p.type
      then if is_empty p.remote_port
        then or_text (fix_host_port (live_address s p)) random_port
        else join_host_port (or_text s.server_addr server) p.remote_port
      else if has_domains p.type
      then or_text p.domains no_domain
      else private_only
