-- ===== src/Panel/Tunnels/Fields/Counts.antt =====
-- What portErrors accepts.
use frp_manager.Base.{
  ℕ, ◌≤◌, true, false, none, Text, is_empty, ◌≡◌, inl, inr, refl, arith, Bool-cases, sym,
}
use frp_manager.Toml.Tunnel.{has_remote_port, is_ranged}
use frp_manager.Toml.Ports.{port_spec_count}
use frp_manager.Toml.Ports.Single.{port_spec_count_single}
use frp_manager.Panel.Tunnels.Fields.{
  valid_port, PortErrors, single_errors, ranged_errors, remote_error, port_errors, shape,
  max_range_ports,
}

pub valid_port-count : (v : Text) → valid_port v ≡ true → port_spec_count v ≡ 1
valid_port-count v h = port_spec_count_single v (ground arith) (ground arith) (ground arith)

-- The numbers of ports of both fields of an accepted entry.
pub record IsCounted (kind local remote : Text) : Type 0 where
  pub some_port : 1 ≤ port_spec_count local
  pub bounded : port_spec_count local ≤ max_range_ports
  pub paired :
      has_remote_port kind ≡ true
      → is_empty remote ≡ false
      → port_spec_count remote ≡ port_spec_count local
  pub remote_of_range :
      has_remote_port kind ≡ true
      → is_ranged (shape kind local remote) ≡ true
      → is_empty remote ≡ false

abbrev pub IsAccepted : PortErrors → Type 0
IsAccepted e = (e.local ≡ none) × (e.remote ≡ none)

single_errors-IsCounted :
    (kind local remote : Text)
    → is_ranged (shape kind local remote) ≡ false
    → IsAccepted (single_errors kind local remote)
    → IsCounted kind local remote
unfolding single_errors
single_errors-IsCounted kind local remote single (hl, hr) =
    let valid : valid_port local ≡ true = ground arith in
    let one = valid_port-count local valid in
    record {
      some_port = rw one (ground arith);
      bounded = rw one (ground arith);
      paired = λ k r. rw one (valid_port-count remote (ground arith));
      remote_of_range = λ k r. ground arith;
    }

remote_error-none :
    (remote : Text) (nl nr : ℕ)
    → 1 ≤ nl
    → remote_error remote nl nr ≡ none
    → (is_empty remote ≡ false) × (nr ≡ nl)
unfolding remote_error
remote_error-none remote nl nr h e = (ground arith, ground arith)

ranged_errors-IsCounted :
    (kind local remote : Text)
    → IsAccepted (ranged_errors kind local remote)
    → IsCounted kind local remote
unfolding ranged_errors
ranged_errors-IsCounted kind local remote (hl, hr) =
    let lo : 1 ≤ port_spec_count local = ground arith in
    let other : has_remote_port kind ≡ true
        → (is_empty remote ≡ false) × (port_spec_count remote ≡ port_spec_count local) =
      λ k.
        remote_error-none remote (port_spec_count local) (port_spec_count remote) lo
          (ground arith) in
    record {
      some_port = lo;
      bounded = ground arith;
      paired = λ k r. (other k).1;
      remote_of_range = λ k r. (other k).0;
    }

module _ (kind local remote : Text) where
  port_errors_ranged :
      is_ranged (shape kind local remote) ≡ true
      → port_errors kind local remote ≡ ranged_errors kind local remote
  unfolding port_errors
  port_errors_ranged h = rw h refl

  port_errors_single :
      is_ranged (shape kind local remote) ≡ false
      → port_errors kind local remote ≡ single_errors kind local remote
  unfolding port_errors
  port_errors_single h = rw h refl

-- Where portErrors reports nothing, the local entry has from one to MAX_RANGE_PORTS ports; for a type
-- with a public port, a public entry that is not empty has as many, and that of a range is not
-- empty.
pub port_errors-IsCounted :
    (kind local remote : Text)
    → IsAccepted (port_errors kind local remote)
    → IsCounted kind local remote
port_errors-IsCounted kind local remote h =
    elim (Bool-cases (is_ranged (shape kind local remote))) [
      | inl ranged ↦
          ranged_errors-IsCounted kind local remote
            (rw (sym (port_errors_ranged kind local remote ranged)) h)
      | inr single ↦
          single_errors-IsCounted kind local remote single
            (rw (sym (port_errors_single kind local remote single)) h)
    ]
