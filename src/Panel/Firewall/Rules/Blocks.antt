-- ===== src/Panel/Firewall/Rules/Blocks.antt =====
-- What holds of the rules after changes on the page.
use frp_manager.Base.{
  Bool, true, false, ◌&&◌, List, [], ◌∷◌, ◌++◌, Text, if◌then◌else◌, is_empty, some_of, same,
  same_refl, ◌≡◌, inl, inr, refl, arith, Bool-cases, ap,
}
use frp_manager.Panel.Firewall.Sources.{Origin, Source, source_label}
use frp_manager.Panel.Firewall.Rules.{
  Rule, lacks_source, of_frps, is_quick, has_label, with_source, quick_rule, quick_block,
}

-- A rule that blocks has a source or follows a list.
abbrev pub IsGrounded : Rule → Type 0
IsGrounded r = lacks_source r ≡ false

has_label-filled : (o : Origin) (ss : List Source) → has_label o ss ≡ true → is_empty ss ≡ false
has_label-filled o [] h = absurd (cc)
has_label-filled o (s ∷ ss) h = refl

append-filled : (ss : List Source) (s : Source) → is_empty (ss ++ s ∷ []) ≡ false
append-filled [] s = refl
append-filled (t ∷ ss) s = refl

-- the sources that `quickBlock` leaves
abbrev sources_with : Source → List Source → List Source
sources_with s ss = if has_label s.origin ss then ss else ss ++ s ∷ []

sources_with-filled : (s : Source) (ss : List Source) → is_empty (sources_with s ss) ≡ false
sources_with-filled s ss = elim (Bool-cases (has_label s.origin ss)) [
  | inl e ↦ rw e (has_label-filled s.origin ss e)
  | inr e ↦ rw e (append-filled ss s)
]

filled-IsGrounded : (r : Rule) → is_empty r.sources ≡ false → IsGrounded r
filled-IsGrounded r h = ground arith

pub with_source-IsGrounded : (s : Source) (r : Rule) → IsGrounded (with_source s r)
unfolding with_source
with_source-IsGrounded s r = filled-IsGrounded (with_source s r) (sources_with-filled s r.sources)

has_label-added : (s : Source) (ss : List Source) → has_label s.origin (ss ++ s ∷ []) ≡ true
has_label-added s [] = rw (same_refl (source_label s.origin)) refl
has_label-added s (t ∷ ss) = let rest = has_label-added s ss in ground (arith, rest)

sources_with-has_label :
    (s : Source) (ss : List Source) → has_label s.origin (sources_with s ss) ≡ true
sources_with-has_label s ss = elim (Bool-cases (has_label s.origin ss)) [
  | inl e ↦ rw e e
  | inr e ↦ rw e (has_label-added s ss)
]

sources_with_twice :
    (s : Source) (ss : List Source) → sources_with s (sources_with s ss) ≡ sources_with s ss
sources_with_twice s ss = rw (sources_with-has_label s ss) refl

with_source_twice : (s : Source) (r : Rule) → with_source s (with_source s r) ≡ with_source s r
unfolding with_source
with_source_twice s r =
    ap (λ ss. (record r { sources = ss; enabled = true })) (sources_with_twice s r.sources)

with_source-quick :
    (quick shown : Text) (s : Source) (r : Rule)
    → is_quick quick shown (with_source s r) ≡ is_quick quick shown r
unfolding is_quick with_source
with_source-quick quick shown s r = refl

quick_rule-quick : (quick shown id : Text) → is_quick quick shown (quick_rule quick shown id) ≡ true
unfolding is_quick quick_rule of_frps same
quick_rule-quick quick shown id = rw (same_refl quick, same_refl shown) (ground arith)

-- A rule of `quickBlock` that is enabled and holds the address or system of the source.
abbrev pub blocks_source : Text → Text → Source → Rule → Bool
blocks_source quick shown s r = is_quick quick shown r && r.enabled && has_label s.origin r.sources

with_source-blocks :
    (quick shown : Text) (s : Source) (r : Rule)
    → is_quick quick shown r ≡ true
    → blocks_source quick shown s (with_source s r) ≡ true
unfolding with_source
with_source-blocks quick shown s r h =
    rw (with_source-quick quick shown s r, h) (sources_with-has_label s r.sources)

quick_block-blocks :
    (quick shown id : Text) (s : Source) (rules : List Rule)
    → some_of (blocks_source quick shown s) (quick_block quick shown id s rules) ≡ true
unfolding quick_block
quick_block-blocks quick shown id s [] =
    rw
      (with_source-blocks quick shown s (quick_rule quick shown id)
        (quick_rule-quick quick shown id))
      refl
quick_block-blocks quick shown id s (r ∷ rs) = elim (Bool-cases (is_quick quick shown r)) [
  | inl e ↦ rw (e, with_source-blocks quick shown s r e) refl
  | inr e ↦ rw (e, quick_block-blocks quick shown id s rs) (ground arith)
]

quick_block_again :
    (quick shown id id' : Text) (s : Source) (rules : List Rule)
    → quick_block quick shown id' s (quick_block quick shown id s rules)
      ≡ quick_block quick shown id s rules
unfolding quick_block
quick_block_again quick shown id id' s [] =
    let r = quick_rule quick shown id in
    rw (with_source-quick quick shown s r, quick_rule-quick quick shown id, with_source_twice s r)
      refl
quick_block_again quick shown id id' s (r ∷ rs) = elim (Bool-cases (is_quick quick shown r)) [
  | inl e ↦ rw (e, with_source-quick quick shown s r, e, with_source_twice s r) refl
  | inr e ↦ rw (e, e) (ap (λ xs. r ∷ xs) (quick_block_again quick shown id id' s rs))
]

-- After a quick block the page has a rule of that name that is enabled, blocks all ports and holds the
-- address or system; blocking it once more changes nothing.
pub quick_block_lem :
    (quick shown id id' : Text) (s : Source) (rules : List Rule)
    → (some_of (blocks_source quick shown s) (quick_block quick shown id s rules) ≡ true)
      × (quick_block quick shown id' s (quick_block quick shown id s rules)
          ≡ quick_block quick shown id s rules)
quick_block_lem quick shown id id' s rules =
    (quick_block-blocks quick shown id s rules, quick_block_again quick shown id id' s rules)
