-- ===== src/FirewallTests.antt =====
-- Runs of the page firewall.js on small rules, and the theorems about it applied to them.
use frp_manager.Base.{
  true, false, none, List, [], ◌∷◌, Text, some_of, same, trim, trim_start, trim_end, split, join,
  codes, ◌≡◌, refl, arith, All,
}
use frp_manager.Base.Decimal.{decimal}
use frp_manager.Panel.Firewall.Sources.{
  Origin, Source, sources_to_text, text_to_sources, system_of, origin_of, source_of, source_label,
  source_line,
}
use frp_manager.Panel.Firewall.Sources.RoundTrip.{IsWritable, text_to_sources-sources_to_text}
use frp_manager.Panel.Firewall.Rules.{
  Mode, Rule, RuleForm, new_rule, next_rule, add_rule, subscribe, quick_block, quick_rule,
  with_source, is_quick, Change, change, change_all,
}
use frp_manager.Panel.Firewall.Rules.Blocks.{blocks_source, quick_block_lem, IsGrounded}
use frp_manager.Panel.Firewall.Rules.Grounded.{change_all-IsGrounded}

abbrev home : Source
home = record { origin = Origin.cidr (codes "203.0.113.4"); note = codes "home # 1" }

abbrev provider : Source
provider = record { origin = Origin.asn 16276; note = [] }

text_tests :
    (sources_to_text (home ∷ provider ∷ []) ≡ codes "203.0.113.4  # home # 1\nAS16276")
    × (text_to_sources (codes " as 16276\n\n198.51.100.0/24 #office")
        ≡ provider
          ∷ record { origin = Origin.cidr (codes "198.51.100.0/24"); note = codes "office" }
          ∷ [])
unfolding sources_to_text text_to_sources source_line source_label system_of origin_of source_of
    split join trim trim_start trim_end decimal
text_tests = (refl, refl)

home-IsWritable : IsWritable home
unfolding system_of trim trim_start trim_end
home-IsWritable = record { written = ((refl, refl), refl); trimmed = refl; one_line = refl }

provider-IsWritable : IsWritable provider
unfolding trim trim_start trim_end
provider-IsWritable = record { written = omega arith; trimmed = refl; one_line = refl }

text_to_sources-sources_to_text_example :
    text_to_sources (sources_to_text (home ∷ provider ∷ [])) ≡ home ∷ provider ∷ []
text_to_sources-sources_to_text_example =
    text_to_sources-sources_to_text (home ∷ provider ∷ [])
      (home-IsWritable, (provider-IsWritable, tt))

abbrev quick : Text
quick = codes "Quick blocks"

abbrev a_block : Rule
a_block = record (new_rule (codes "frps")) {
  id = codes "r1";
  mode = Mode.block;
  sources = home ∷ [];
}

quick_block_lem_example :
    (some_of
        (blocks_source quick (codes "frps") provider)
        (quick_block quick (codes "frps") (codes "r2") provider (a_block ∷ []))
      ≡ true)
    × (quick_block quick
          (codes "frps")
          (codes "r3")
          provider
          (quick_block quick (codes "frps") (codes "r2") provider (a_block ∷ []))
        ≡ quick_block quick (codes "frps") (codes "r2") provider (a_block ∷ []))
quick_block_lem_example =
    quick_block_lem quick (codes "frps") (codes "r2") (codes "r3") provider (a_block ∷ [])

-- a rule that blocks, without a source
abbrev bare_form : RuleForm
bare_form = record {
  name = codes "x";
  mode = Mode.block;
  on_all_ports = true;
  ports = [];
  sources = codes "  # nothing";
  frps = none;
  unsubscribes = false;
}

abbrev changes : List Change
changes =
    Change.adds (codes "r4") bare_form
    ∷ Change.edits 0 bare_form
    ∷ Change.blocks (codes "r5") provider
    ∷ Change.subscribes (codes "r6")
        (record { id = codes "scan"; name = codes "Scanners"; mode = Mode.block })
    ∷ Change.removes 0
    ∷ []

change_test :
    change_all quick (codes "frps") changes (a_block ∷ [])
    ≡ record (quick_rule quick (codes "frps") (codes "r5")) { sources = provider ∷ [] }
      ∷ record (new_rule (codes "frps")) {
        id = codes "r6";
        name = codes "Scanners";
        mode = Mode.block;
        list = codes "scan";
      }
      ∷ []
unfolding change_all change add_rule next_rule subscribe quick_block quick_rule with_source is_quick
    text_to_sources system_of origin_of source_of split join trim trim_start trim_end same
change_test = refl

change_all-IsGrounded_example :
    All IsGrounded (change_all quick (codes "frps") changes (a_block ∷ []))
change_all-IsGrounded_example =
    change_all-IsGrounded quick (codes "frps") changes (a_block ∷ [])
      (tt, (tt, (tt, (refl, (tt, tt))))) (refl, tt)
