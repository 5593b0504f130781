-- ===== src/Toml/Hosts/Brackets.antt =====
-- Where unbracket, joinHostPort and fixHostPort put brackets.
use frp_manager.Base.{
  length, if◌then◌else◌, slice, ends_with, trim, leb, ◌-◌, Bool, true, false, not, ◌&&◌, none, some,
  [], ◌∷◌, ◌++◌, Text, every, some_of, ◌⊎◌, ap, is_empty, length-append, append_assoc, starts_with,
  codes, ◌≡◌, refl, arith, Bool-cases, Option-cases, inl, inr,
}
use frp_manager.Base.Decimal.{is_digit}
use frp_manager.Base.TextLaws.{trim-quoted, ends_with-concat, slice-quoted}
use frp_manager.Toml.Hosts.{
  unbracket, is_dot, is_colon, is_bracket, join_host_port, last_colon, fix_host_port,
}

unbracket_trimmed :
    (text inner : Text)
    → trim text ≡ text
    → slice text 1 (length text - 1) ≡ inner
    → (leb 2 (length text)
        && starts_with text (codes "[")
        && ends_with text (codes "]")
        && every is_dot inner)
      ≡ true
    → unbracket (some text) ≡ inner
unfolding unbracket
unbracket_trimmed text inner e s h = rw (e, s, h, unbracket)

-- An address between brackets loses that one pair, whatever the address is, if it holds no line
-- break.
pub unbracket_bracketed :
    (a : Text) → every is_dot a ≡ true → unbracket (some (b'[' ∷ (a ++ b']' ∷ []))) ≡ a
unbracket_bracketed a h =
    unbracket_trimmed (b'[' ∷ (a ++ b']' ∷ [])) a (trim-quoted b'[' b']' a refl refl)
      (slice-quoted b'[' b']' a)
      (unfold starts_with in
        ground (arith, h, length-append a (b']' ∷ []), ends_with-concat (b'[' ∷ a) b']'))

last_colon-none : (p : Text) → some_of is_colon p ≡ false → last_colon p ≡ none
unfolding last_colon
last_colon-none [] h = refl
last_colon-none (c ∷ p) h = ground (arith, last_colon-none p)

last_colon-append :
    (h p : Text) → some_of is_colon p ≡ false → last_colon (h ++ b':' ∷ p) ≡ some (h, p)
unfolding last_colon
last_colon-append [] p e = rw (last_colon-none p e)
last_colon-append (c ∷ h) p e = rw (last_colon-append h p e)

digits_no_colon : (p : Text) → every is_digit p ≡ true → some_of is_colon p ≡ false
digits_no_colon [] h = refl
digits_no_colon (c ∷ p) h = ground (arith, digits_no_colon p)

no_bracket_start : (h : Text) → some_of is_bracket h ≡ false → starts_with h (codes "[") ≡ false
unfolding starts_with
no_bracket_start [] e = refl
no_bracket_start (c ∷ h) e = ground arith

bracket_start : (h : Text) → starts_with h (codes "[") ≡ true → some_of is_bracket h ≡ true
unfolding starts_with
bracket_start [] e = cc
bracket_start (c ∷ h) e = ground arith

fix_host_port_kept :
    (a host port : Text)
    → last_colon a ≡ some (host, port)
    → (some_of is_colon host && not (some_of is_bracket host)) ≡ false
    → fix_host_port a ≡ a
unfolding fix_host_port
fix_host_port_kept a host port e h = rw (e, fix_host_port) (ground arith)

-- The address "host:port" of an IPv6 host, with no brackets, becomes "[host]:port".
pub fix_host_port_lem :
    (host port : Text)
    → some_of is_colon host ≡ true
    → some_of is_bracket host ≡ false
    → is_empty port ≡ false
    → every is_digit port ≡ true
    → fix_host_port (host ++ b':' ∷ port) ≡ b'[' ∷ (host ++ b']' ∷ b':' ∷ port)
unfolding fix_host_port
fix_host_port_lem host port hc hb he hd =
    rw (last_colon-append host port (digits_no_colon port hd), fix_host_port)
      (rw (hc, hb, he, hd, no_bracket_start host hb))

-- what `join_host_port` has put together from a port number is left
pub fix_host_port-join_host_port :
    (host port : Text)
    → every is_digit port ≡ true
    → fix_host_port (join_host_port host port) ≡ join_host_port host port
unfolding fix_host_port
fix_host_port-join_host_port host port hd =
    elim (Bool-cases (some_of is_colon host && not (starts_with host (codes "[")))) [
      | inl wrapped ↦
          let grouped : b'[' ∷ (host ++ b']' ∷ b':' ∷ port)
              ≡ (b'[' ∷ (host ++ b']' ∷ [])) ++ b':' ∷ port =
            simp append_assoc in
          rw (wrapped, grouped)
            (fix_host_port_kept _ (b'[' ∷ (host ++ b']' ∷ [])) port
              (last_colon-append _ port (digits_no_colon port hd)) (ground arith))
      | inr bare ↦ rw bare (
          fix_host_port_kept _ host port (last_colon-append host port (digits_no_colon port hd))
            (ground (arith, bracket_start host)))
    ]

fix_host_port_without_port : (host : Text) → fix_host_port (host ++ b':' ∷ []) ≡ host ++ b':' ∷ []
unfolding fix_host_port
fix_host_port_without_port host = rw (last_colon-append host [] refl, fix_host_port) (ground arith)

-- For a host without brackets and a port number of one digit or more: `join_host_port` gives
-- "[host]:port" if the host has a colon, and else "host:port"; `fix_host_port` makes this of
-- "host:port"; a host that is given in brackets keeps them in both, and no second pair is added; and
-- `fix_host_port` leaves "host:", which has no port.
pub join_host_port_lem :
    (host port : Text)
    → some_of is_bracket host ≡ false
    → is_empty port ≡ false
    → every is_digit port ≡ true
    → (join_host_port host port ≡ (
        if some_of is_colon host then b'[' ∷ (host ++ b']' ∷ b':' ∷ port) else host ++ b':' ∷ port))
      × (fix_host_port (host ++ b':' ∷ port) ≡ join_host_port host port)
      × (join_host_port (b'[' ∷ (host ++ b']' ∷ [])) port ≡ b'[' ∷ (host ++ b']' ∷ b':' ∷ port))
      × (fix_host_port (b'[' ∷ (host ++ b']' ∷ b':' ∷ port)) ≡ b'[' ∷ (host ++ b']' ∷ b':' ∷ port))
      × (fix_host_port (host ++ b':' ∷ []) ≡ host ++ b':' ∷ [])
unfolding join_host_port starts_with fix_host_port
join_host_port_lem host port hb he hd =
    let whole : (b'[' ∷ (host ++ b']' ∷ [])) ++ b':' ∷ port ≡ b'[' ∷ (host ++ b']' ∷ b':' ∷ port) =
      simp append_assoc in
    let wrapped : join_host_port (b'[' ∷ (host ++ b']' ∷ [])) port
        ≡ b'[' ∷ (host ++ b']' ∷ b':' ∷ port) =
      ground (arith, whole) in
    (
      rw (no_bracket_start host hb) (ground arith),
      elim (Bool-cases (some_of is_colon host)) [
        | inl many ↦
            rw (fix_host_port_lem host port many hb he hd)
              (rw (many, no_bracket_start host hb) refl)
        | inr one ↦
            rw
              (fix_host_port_kept (host ++ b':' ∷ port) host port
                (last_colon-append host port (digits_no_colon port hd)) (rw one refl))
              (rw one refl)
      ],
      wrapped,
      rw (← wrapped) (fix_host_port-join_host_port (b'[' ∷ (host ++ b']' ∷ [])) port hd),
      fix_host_port_without_port host,
    )

corrects : Text → Text → Bool
corrects host port =
    some_of is_colon host
    && not (some_of is_bracket host)
    && not (is_empty port)
    && every is_digit port

-- An address is left as it is, or put together again from a host and a port number.
fix_host_port-cases :
    (a : Text)
    → (fix_host_port a ≡ a)
      ⊎ ((host : Text) × (port : Text) × (every is_digit port ≡ true)
          × (fix_host_port a ≡ join_host_port host port))
unfolding fix_host_port corrects
fix_host_port-cases a = elim (Option-cases (last_colon a)) [
  | inl e ↦ inl (rw (e, fix_host_port))
  | inr ((host, port), e) ↦ elim (Bool-cases (corrects host port)) [
    | inl h ↦ inr (host, port, ground arith, rw (e, fix_host_port) (ground arith))
    | inr h ↦ inl (rw (e, fix_host_port) (ground arith))
  ]
]

-- Correcting an address a second time changes nothing.
pub fix_host_port_idem : (a : Text) → fix_host_port (fix_host_port a) ≡ fix_host_port a
fix_host_port_idem a = elim (fix_host_port-cases a) [
  | inl e ↦ ap fix_host_port e
  | inr (host, port, digits, e) ↦ rw e (fix_host_port-join_host_port host port digits)
]
