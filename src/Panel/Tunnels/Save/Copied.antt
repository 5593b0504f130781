-- ===== src/Panel/Tunnels/Save/Copied.antt =====
-- The address that publicCopyValue gives to copy.
use frp_manager.Base.{true, [], ◌∷◌, Text, is_empty, every, ◌≡◌, inl, inr, refl, arith, Bool-cases}
use frp_manager.Base.Decimal.{is_digit}
use frp_manager.Toml.Hosts.{fix_host_port}
use frp_manager.Toml.Hosts.Brackets.{fix_host_port-join_host_port, fix_host_port_idem}
use frp_manager.Toml.Tunnel.{Proxy, has_remote_port, is_ranged}
use frp_manager.Panel.Tunnels.Page.{Page}
use frp_manager.Panel.Tunnels.Save.{
  live_address, is_bare_port, behind_colon, with_server, copied_port, public_copy_value,
}

abbrev NeedsNoFix : Text → Type 0
NeedsNoFix a = fix_host_port a ≡ a

nothing-NeedsNoFix : NeedsNoFix []
unfolding fix_host_port
nothing-NeedsNoFix = refl

with_server-NeedsNoFix :
    (s : Page) (port : Text) → every is_digit port ≡ true → NeedsNoFix (with_server s port)
unfolding with_server
with_server-NeedsNoFix s port h = elim (Bool-cases (is_empty s.server_addr)) [
  | inl e ↦ rw e nothing-NeedsNoFix
  | inr e ↦ rw e (fix_host_port-join_host_port s.server_addr port h)
]

behind_colon-digits :
    (live : Text) → is_bare_port live ≡ true → every is_digit (behind_colon live) ≡ true
behind_colon-digits [] h = refl
behind_colon-digits (c ∷ s) h = ground arith

copied_port-NeedsNoFix :
    (s : Page) (p : Proxy) → every is_digit p.remote_port ≡ true → NeedsNoFix (copied_port s p)
unfolding copied_port
copied_port-NeedsNoFix s p h = elim (Bool-cases (is_empty p.remote_port)) [
  | inr e ↦ rw e (with_server-NeedsNoFix s p.remote_port h)
  | inl e ↦ elim (Bool-cases (is_bare_port (live_address s p))) [
    | inl b ↦ rw (e, b) (with_server-NeedsNoFix s _ (behind_colon-digits (live_address s p) b))
    | inr b ↦ rw (e, b) (fix_host_port_idem (live_address s p))
  ]
]

-- For a type with a public port, set to digits or left to the server, the address to copy is one
-- that fixHostPort leaves as it is: an IPv6 host stands between brackets.
pub public_copy_value-fixed :
    (s : Page) (p : Proxy)
    → has_remote_port p.type ≡ true
    → every is_digit p.remote_port ≡ true
    → fix_host_port (public_copy_value s p) ≡ public_copy_value s p
unfolding public_copy_value
public_copy_value-fixed s p k h = elim (Bool-cases (is_ranged p)) [
  | inl r ↦ rw r nothing-NeedsNoFix
  | inr r ↦ rw (r, k) (copied_port-NeedsNoFix s p h)
]
