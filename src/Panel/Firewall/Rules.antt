-- ===== src/Panel/Firewall/Rules.antt =====
-- The rules of firewall.js and what the page does with them: the dialog of editRule, removeRule,
-- quickBlock, subscribe, the switch of a rule, discard, load and save. A rule is known by its place in
-- `S.rules`; the `id` of a new rule is an argument.
pub mod Blocks
pub mod Grounded
use frp_manager.Base.{
  ℕ, zero, suc, Bool, true, false, not, ◌&&◌, ◌||◌, Option, none, some, List, [], ◌∷◌, ◌++◌, Text,
  ◌==◌, if◌then◌else◌, leb, keep, some_of, is_empty, same, trim, codes,
}
use frp_manager.Base.Decimal.{decimal}
use frp_manager.Panel.Firewall.Sources.{Origin, Source, source_label, text_to_sources}

pub data Mode : Type 0 where
  allow : Mode
  block : Mode

-- A rule. A missing `frps` or `list` is an empty one.
pub record Rule : Type 0 where
  pub id : Text
  pub name : Text
  pub mode : Mode
  pub ports : Text
  pub sources : List Source
  pub enabled : Bool
  pub frps : Text
  pub list : Text

abbrev pub is_block : Rule → Bool
is_block r = elim r.mode [ Mode.allow ↦ false | Mode.block ↦ true ]

abbrev pub all_ports : Text
all_ports = codes "*"

-- `ofFrps`, `orphan` and `shownRule` of a `frps`
unfoldable pub of_frps : Text → Text → Bool
unfolding same
of_frps shown frps = is_empty frps || same frps shown

unfoldable pub is_orphan : List Text → Text → Bool
unfolding same
is_orphan known frps = not (is_empty frps) && not (some_of (same frps) known)

unfoldable pub is_shown : List Text → Text → Rule → Bool
unfolding of_frps is_orphan
is_shown known shown r = of_frps shown r.frps || is_orphan known r.frps

-- `portText`
abbrev pub port_text : ℕ → ℕ → Text
unfolding decimal
port_text first last = if first == last then decimal first else decimal first ++ b'-' ∷ decimal last

-- The fields of the dialog. `frps` is there where the choice is shown, and `unsubscribes` tells
-- whether its button was used.
pub record RuleForm : Type 0 where
  pub name : Text
  pub mode : Mode
  pub on_all_ports : Bool
  pub ports : Text
  pub sources : Text
  pub frps : Option Text
  pub unsubscribes : Bool

-- `draft` of a new rule
abbrev pub new_rule : Text → Rule
new_rule shown = record {
  id = [];
  name = [];
  mode = Mode.allow;
  ports = all_ports;
  sources = [];
  enabled = true;
  frps = shown;
  list = [];
}

-- `next`, once empty keys are dropped
unfoldable pub next_rule : Rule → RuleForm → Rule
unfolding trim text_to_sources
next_rule draft f = record draft {
  name = trim f.name;
  mode = f.mode;
  ports = if f.on_all_ports then all_ports else trim f.ports;
  sources = text_to_sources f.sources;
  frps = elim f.frps [ none ↦ draft.frps | some frps ↦ frps ];
  list = if f.unsubscribes then [] else draft.list;
}

-- `result.mode === 'block' && !result.sources.length && !result.list`
abbrev pub lacks_source : Rule → Bool
lacks_source r = is_block r && is_empty r.sources && is_empty r.list

abbrev pub change_at : (Rule → Rule) → ℕ → List Rule → List Rule
change_at f i [] = []
change_at f zero (r ∷ rs) = f r ∷ rs
change_at f (suc i) (r ∷ rs) = r ∷ change_at f i rs

-- `rules.filter((r) => r !== rule)`
abbrev pub drop_at : ℕ → List Rule → List Rule
drop_at i [] = []
drop_at zero (r ∷ rs) = rs
drop_at (suc i) (r ∷ rs) = r ∷ drop_at i rs

-- the end of `editRule` for an existing rule, whose object is changed: a refused one stays
abbrev pub edited : RuleForm → Rule → Rule
edited f r = let next = next_rule r f in if lacks_source next then r else next

-- the end of `editRule` for a new rule
unfoldable pub add_rule : Text → Text → RuleForm → List Rule → List Rule
add_rule shown id f rules =
    let next = next_rule (new_rule shown) f in
    if lacks_source next then rules else rules ++ record next { id = id } ∷ []

-- A list of the catalogue.
pub record Catalogued : Type 0 where
  pub id : Text
  pub name : Text
  pub mode : Mode

-- the rule of `subscribe`
abbrev pub list_rule : Text → Text → Catalogued → Rule
list_rule shown id lst = record (new_rule shown) {
  id = id;
  name = lst.name;
  mode = lst.mode;
  list = lst.id;
}

-- `subscribe`, confirmed where it asks
unfoldable pub subscribe : Text → Text → Catalogued → List Rule → List Rule
subscribe shown id lst rules = rules ++ list_rule shown id lst ∷ []

-- the test of `quickBlock`; `quick` is the translation of its name
unfoldable pub is_quick : Text → Text → Rule → Bool
is_quick quick shown r =
    is_block r && same r.ports all_ports && same r.name quick && of_frps shown r.frps

abbrev pub has_label : Origin → List Source → Bool
has_label o sources = some_of (λ s. same (source_label s.origin) (source_label o)) sources

-- the source is added to the rule
unfoldable pub with_source : Source → Rule → Rule
with_source s r = record r {
  sources = if has_label s.origin r.sources then r.sources else r.sources ++ s ∷ [];
  enabled = true;
}

unfoldable pub quick_rule : Text → Text → Text → Rule
quick_rule quick shown id = record (new_rule shown) { id = id; name = quick; mode = Mode.block }

-- `quickBlock`: the first such rule is changed, or a new one is added at the end
unfoldable pub quick_block : Text → Text → Text → Source → List Rule → List Rule
quick_block quick shown id s [] = with_source s (quick_rule quick shown id) ∷ []
quick_block quick shown id s (r ∷ rs) =
    let rest = quick_block quick shown id s rs in
    if is_quick quick shown r then with_source s r ∷ rs else r ∷ rest

-- What the page does with the rules between two loadings.
pub data Change : Type 0 where
  adds : Text → RuleForm → Change
  edits : ℕ → RuleForm → Change
  removes : ℕ → Change
  switches : ℕ → Bool → Change
  subscribes : Text → Catalogued → Change
  blocks : Text → Source → Change

unfoldable pub change : Text → Text → Change → List Rule → List Rule
change quick shown (Change.adds id f) rules = add_rule shown id f rules
change quick shown (Change.edits i f) rules = change_at (edited f) i rules
change quick shown (Change.removes i) rules = drop_at i rules
change quick shown (Change.switches i on) rules = change_at (λ r. record r { enabled = on }) i rules
change quick shown (Change.subscribes id lst) rules = subscribe shown id lst rules
change quick shown (Change.blocks id s) rules = quick_block quick shown id s rules

unfoldable pub change_all : Text → Text → List Change → List Rule → List Rule
change_all quick shown [] rules = rules
change_all quick shown (c ∷ cs) rules = change_all quick shown cs (change quick shown c rules)

-- the choice of `S.frps` in load, where `saved` is the last choice
unfoldable pub choose_frps : Text → Text → List Text → Text
unfolding same
choose_frps asked saved known =
    if some_of (same asked) known
    then asked
    else if some_of (same saved) known
    then saved
    else elim known [ [] ↦ [] | f ∷ _ ↦ f ]

-- whether `save` posts the rules: `blocked` is the number of ports that the test reports as blocked
-- for the user's own address, if it could be made
unfoldable pub posts_rules : Bool → Bool → Option ℕ → Bool → Bool
posts_rules enabled has_address blocked confirmed =
    if enabled && has_address
    then elim blocked [ none ↦ true | some n ↦ n == 0 || confirmed ]
    else true
