-- ===== src/Panel/Tunnels/Edits/Apart.antt =====
-- The entries of both lists share no name, whatever is clicked.
use frp_manager.Base.{ℕ, suc, none, some, List, [], ◌∷◌, ◌≡◌, refl, subst, sym}
use frp_manager.Toml.Tunnel.{Proxy, Visitor}
use frp_manager.Panel.Tunnels.Names.Kept.{
  IsKept, IsKept-suc, IsKept-new, IsKept-edited, IsKept-removed,
}
use frp_manager.Panel.Tunnels.Editor.{ProxyForm, Submitted, submit, put_draft, entry_of, filled_in}
use frp_manager.Panel.Tunnels.Editor.Accepted.{names_of, submit-IsSound, submit-Disjoint}
use frp_manager.Panel.Tunnels.Visitors.{
  VisitorForm, VisitorSubmitted, submit_visitor, visitor_own_names, put_visitor, visitor_entry,
  filled_visitor,
}
use frp_manager.Panel.Tunnels.Visitors.Accepted.{
  submit_visitor-IsSoundVisitor, submit_visitor-Disjoint,
}
use frp_manager.Panel.Tunnels.Edits.{Lists, Click, submitted, submitted_visitor, click, click_all}

abbrev ProxiesAreKept : ℕ → List Proxy → Type 0
ProxiesAreKept made ps = IsKept (λ p. p.uid) names_of made ps

abbrev VisitorsAreKept : ℕ → List Visitor → Type 0
VisitorsAreKept made vs = IsKept (λ v. v.uid) visitor_own_names made vs

-- No two entries of a list have a `uid` in common, or a name of the list or of frpc.
pub record NamesAreApart (s : Lists) : Type 0 where
  pub of_proxies : ProxiesAreKept s.made s.proxies
  pub of_visitors : VisitorsAreKept s.made s.visitors

submitted-new :
    (made : ℕ) (f : ProxyForm) (ps : List Proxy)
    → ProxiesAreKept made ps
    → ProxiesAreKept (suc made) (submitted none (suc made) f ps)
unfolding submitted filled_in put_draft
submitted-new made f ps k =
    elim (submit none (suc made) f ps)
        as (λ o.
          submit none (suc made) f ps ≡ o
          → ProxiesAreKept (suc made)
              (elim o [ Submitted.refused _ ↦ ps | Submitted.accepted ps' ↦ ps' ])) [
                | Submitted.refused _ ↦ λ _. IsKept-suc (λ p. p.uid) names_of made ps k
                | Submitted.accepted ps' ↦ λ e.
                    subst (ProxiesAreKept (suc made))
                      (sym (submit-IsSound none (suc made) f ps ps' e).1)
                      (IsKept-new (λ p. p.uid) names_of made ps (entry_of none (suc made) f) refl
                        (submit-Disjoint none (suc made) f ps ps' e) k)
              ]
      refl

submitted-edited :
    (made : ℕ) (p : Proxy) (f : ProxyForm) (ps : List Proxy)
    → ProxiesAreKept made ps
    → ProxiesAreKept made (submitted (some p) p.uid f ps)
unfolding submitted filled_in put_draft
submitted-edited made p f ps k =
    elim (submit (some p) p.uid f ps)
        as (λ o.
          submit (some p) p.uid f ps ≡ o
          → ProxiesAreKept made
              (elim o [ Submitted.refused _ ↦ ps | Submitted.accepted ps' ↦ ps' ])) [
                | Submitted.refused _ ↦ λ _. k
                | Submitted.accepted ps' ↦ λ e.
                    subst (ProxiesAreKept made) (sym (submit-IsSound (some p) p.uid f ps ps' e).1) (
                      IsKept-edited (λ q. q.uid) names_of made ps (entry_of (some p) p.uid f)
                        (submit-Disjoint (some p) p.uid f ps ps' e) k)
              ]
      refl

submitted_visitor-new :
    (made : ℕ) (f : VisitorForm) (vs : List Visitor)
    → VisitorsAreKept made vs
    → VisitorsAreKept (suc made) (submitted_visitor none (suc made) f vs)
unfolding submitted_visitor filled_visitor put_visitor
submitted_visitor-new made f vs k =
    elim (submit_visitor none (suc made) f vs)
        as (λ o.
          submit_visitor none (suc made) f vs ≡ o
          → VisitorsAreKept (suc made)
              (elim o [ VisitorSubmitted.refused _ ↦ vs | VisitorSubmitted.accepted vs' ↦ vs' ])) [
                | VisitorSubmitted.refused _ ↦
                    λ _. IsKept-suc (λ v. v.uid) visitor_own_names made vs k
                | VisitorSubmitted.accepted vs' ↦ λ e.
                    subst (VisitorsAreKept (suc made))
                      (sym (submit_visitor-IsSoundVisitor none (suc made) f vs vs' e).1)
                      (IsKept-new (λ v. v.uid) visitor_own_names made vs
                        (visitor_entry none (suc made) f) refl
                        (submit_visitor-Disjoint none (suc made) f vs vs' e) k)
              ]
      refl

submitted_visitor-edited :
    (made : ℕ) (v : Visitor) (f : VisitorForm) (vs : List Visitor)
    → VisitorsAreKept made vs
    → VisitorsAreKept made (submitted_visitor (some v) v.uid f vs)
unfolding submitted_visitor filled_visitor put_visitor
submitted_visitor-edited made v f vs k =
    elim (submit_visitor (some v) v.uid f vs)
        as (λ o.
          submit_visitor (some v) v.uid f vs ≡ o
          → VisitorsAreKept made
              (elim o [ VisitorSubmitted.refused _ ↦ vs | VisitorSubmitted.accepted vs' ↦ vs' ])) [
                | VisitorSubmitted.refused _ ↦ λ _. k
                | VisitorSubmitted.accepted vs' ↦ λ e.
                    subst (VisitorsAreKept made)
                      (sym (submit_visitor-IsSoundVisitor (some v) v.uid f vs vs' e).1)
                      (IsKept-edited (λ w. w.uid) visitor_own_names made vs
                        (visitor_entry (some v) v.uid f)
                        (submit_visitor-Disjoint (some v) v.uid f vs vs' e) k)
              ]
      refl

click-NamesAreApart : (c : Click) (s : Lists) → NamesAreApart s → NamesAreApart (click c s)
unfolding click
click-NamesAreApart Click.opens_new s h = record {
  of_proxies = IsKept-suc (λ p. p.uid) names_of s.made s.proxies h.of_proxies;
  of_visitors = IsKept-suc (λ v. v.uid) visitor_own_names s.made s.visitors h.of_visitors;
}
click-NamesAreApart (Click.submits_new f) s h = record {
  of_proxies = submitted-new s.made f s.proxies h.of_proxies;
  of_visitors = IsKept-suc (λ v. v.uid) visitor_own_names s.made s.visitors h.of_visitors;
}
click-NamesAreApart (Click.submits p f) s h = record {
  of_proxies = submitted-edited s.made p f s.proxies h.of_proxies;
  of_visitors = h.of_visitors;
}
click-NamesAreApart (Click.removes p) s h = record {
  of_proxies = IsKept-removed (λ q. q.uid) names_of s.made p.uid s.proxies h.of_proxies;
  of_visitors = h.of_visitors;
}
click-NamesAreApart (Click.submits_new_visitor f) s h = record {
  of_proxies = IsKept-suc (λ p. p.uid) names_of s.made s.proxies h.of_proxies;
  of_visitors = submitted_visitor-new s.made f s.visitors h.of_visitors;
}
click-NamesAreApart (Click.submits_visitor v f) s h = record {
  of_proxies = h.of_proxies;
  of_visitors = submitted_visitor-edited s.made v f s.visitors h.of_visitors;
}
click-NamesAreApart (Click.removes_visitor v) s h = record {
  of_proxies = h.of_proxies;
  of_visitors = IsKept-removed (λ w. w.uid) visitor_own_names s.made v.uid s.visitors h.of_visitors;
}

-- Where no two tunnels and no two visitors of the page have a `uid` or a name in common (that of the
-- list, or those that frpc gives), none have after any sequence of clicks: refused and accepted
-- drafts, new and edited, and deletions.
pub click_all-NamesAreApart :
    (cs : List Click) (s : Lists) → NamesAreApart s → NamesAreApart (click_all cs s)
unfolding click_all
click_all-NamesAreApart [] s h = h
click_all-NamesAreApart (c ∷ cs) s h =
    click_all-NamesAreApart cs (click c s) (click-NamesAreApart c s h)
