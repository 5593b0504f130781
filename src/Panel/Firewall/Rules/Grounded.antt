-- ===== src/Panel/Firewall/Rules/Grounded.antt =====
-- Every rule of the page that blocks has a source or follows a list.
use frp_manager.Base.{
  ℕ, zero, suc, false, List, [], ◌∷◌, Text, is_empty, All, All-append, ◌≡◌, inl, inr, arith,
  Bool-cases,
}
use frp_manager.Panel.Firewall.Sources.{Source}
use frp_manager.Panel.Firewall.Rules.{
  Rule, RuleForm, Catalogued, new_rule, next_rule, lacks_source, change_at, drop_at, edited,
  add_rule, list_rule, subscribe, is_quick, quick_rule, quick_block, Change, change, change_all,
}
use frp_manager.Panel.Firewall.Rules.Blocks.{IsGrounded, with_source-IsGrounded}

edited-IsGrounded : (f : RuleForm) (r : Rule) → IsGrounded r → IsGrounded (edited f r)
edited-IsGrounded f r h = elim (Bool-cases (lacks_source (next_rule r f))) [
  | inl e ↦ rw e h
  | inr e ↦ rw e e
]

change_at-All :
    (f : Rule → Rule) (i : ℕ) (rules : List Rule)
    → ((r : Rule) → IsGrounded r → IsGrounded (f r))
    → All IsGrounded rules
    → All IsGrounded (change_at f i rules)
change_at-All f i [] k h = tt
change_at-All f zero (r ∷ rs) k (hr, h) = (k r hr, h)
change_at-All f (suc i) (r ∷ rs) k (hr, h) = (hr, change_at-All f i rs k h)

drop_at-All : (i : ℕ) (rules : List Rule) → All IsGrounded rules → All IsGrounded (drop_at i rules)
drop_at-All i [] h = tt
drop_at-All zero (r ∷ rs) (hr, h) = h
drop_at-All (suc i) (r ∷ rs) (hr, h) = (hr, drop_at-All i rs h)

add_rule-All :
    (shown id : Text) (f : RuleForm) (rules : List Rule)
    → All IsGrounded rules
    → All IsGrounded (add_rule shown id f rules)
unfolding add_rule
add_rule-All shown id f rules h =
    let next = next_rule (new_rule shown) f in
    elim (Bool-cases (lacks_source next)) [
      | inl e ↦ rw e h
      | inr e ↦ rw e (All-append IsGrounded rules (record next { id = id } ∷ []) h (e, tt))
    ]

quick_block-All :
    (quick shown id : Text) (s : Source) (rules : List Rule)
    → All IsGrounded rules
    → All IsGrounded (quick_block quick shown id s rules)
unfolding quick_block
quick_block-All quick shown id s [] h = (with_source-IsGrounded s (quick_rule quick shown id), tt)
quick_block-All quick shown id s (r ∷ rs) (hr, h) = elim (Bool-cases (is_quick quick shown r)) [
  | inl e ↦ rw e (with_source-IsGrounded s r, h)
  | inr e ↦ rw e (hr, quick_block-All quick shown id s rs h)
]

-- the lists of the catalogue have an identifier
abbrev pub IsListed : Change → Type 0
IsListed (Change.subscribes id lst) = is_empty lst.id ≡ false
IsListed _ = Unit

listed-IsGrounded : (r : Rule) → is_empty r.list ≡ false → IsGrounded r
listed-IsGrounded r h = ground arith

subscribe-All :
    (shown id : Text) (lst : Catalogued) (rules : List Rule)
    → is_empty lst.id ≡ false
    → All IsGrounded rules
    → All IsGrounded (subscribe shown id lst rules)
unfolding subscribe
subscribe-All shown id lst rules k h =
    All-append IsGrounded rules _ h (listed-IsGrounded (list_rule shown id lst) k, tt)

change-All :
    (quick shown : Text) (c : Change) (rules : List Rule)
    → IsListed c
    → All IsGrounded rules
    → All IsGrounded (change quick shown c rules)
unfolding change
change-All quick shown (Change.adds id f) rules k h = add_rule-All shown id f rules h
change-All quick shown (Change.edits i f) rules k h =
    change_at-All (edited f) i rules (edited-IsGrounded f) h
change-All quick shown (Change.removes i) rules k h = drop_at-All i rules h
change-All quick shown (Change.switches i on) rules k h =
    change_at-All (λ r. record r { enabled = on }) i rules (λ r hr. hr) h
change-All quick shown (Change.subscribes id lst) rules k h = subscribe-All shown id lst rules k h
change-All quick shown (Change.blocks id s) rules k h = quick_block-All quick shown id s rules h

-- Where every rule that blocks has a source or follows a list, so it is after any sequence of new and
-- edited rules, deletions, switches, quick blocks and subscriptions to lists with an identifier.
pub change_all-IsGrounded :
    (quick shown : Text) (cs : List Change) (rules : List Rule)
    → All IsListed cs
    → All IsGrounded rules
    → All IsGrounded (change_all quick shown cs rules)
unfolding change_all
change_all-IsGrounded quick shown [] rules k h = h
change_all-IsGrounded quick shown (c ∷ cs) rules (kc, k) h =
    change_all-IsGrounded quick shown cs (change quick shown c rules) k
      (change-All quick shown c rules kc h)
