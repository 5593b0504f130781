-- ===== src/Panel/Config/Touched.antt =====
-- load of config.js, and the keys of the fields that have changed since: touchedKeys.
use frp_manager.Base.{
  Bool, true, false, not, ◌||◌, Option, none, some, is_some, List, [], ◌∷◌, ◌++◌, Text,
  if◌then◌else◌, same, codes,
}
use frp_manager.Base.Dict.{Dict, lookup, assign}
use frp_manager.Toml.Parse.{Config}
use frp_manager.Toml.Blocks.Prep.{parse_toml}
use frp_manager.Panel.Config.Schema.{Field, Section, Role, sections_of}
use frp_manager.Panel.Config.Form.{Control, Form, form_of, values}

-- The other fields of `S`; `snapshot` is `none` for the empty text.
pub record Settings : Type 0 where
  pub role : Role
  pub iid : Text
  pub form : Form
  pub loaded : Dict Control
  pub snapshot : Option (Dict Control)

-- `{ ...S.loaded, ...S.bracketed }`
unfoldable pub with_brackets : Dict Control → Dict Text → Dict Control
unfolding assign
with_brackets loaded [] = loaded
with_brackets loaded ((name, raw) ∷ bracketed) =
    with_brackets (assign name (Control.line raw) loaded) bracketed

-- the rest of `load`, once the file is parsed
unfoldable pub show_form : Bool → Form → Settings → Settings
show_form discarded form s =
    let loaded = values form in
    record s {
      form = form;
      loaded = loaded;
      snapshot = some (if discarded then loaded else with_brackets loaded form.bracketed);
    }

-- `load` of an instance outside a container, where the file is there; `none` where parseToml throws
module _ (shown : Text → Text) (chosen : List Text → Text → Text) where
  unfoldable pub show_parsed : Bool → Settings → Option Config → Option Settings
  show_parsed discarded s none = none
  show_parsed discarded s (some cfg) =
      some (show_form discarded (form_of shown chosen s.role cfg.values) s)

  unfoldable pub load_form : Bool → Text → Settings → Option Settings
  load_form discarded content s = show_parsed discarded s (parse_toml content)

-- `String(…)` of a value
unfoldable pub string_of : Option Control → Text
string_of none = codes "undefined"
string_of (some (Control.box true)) = codes "true"
string_of (some (Control.box false)) = codes "false"
string_of (some (Control.line s)) = s

-- `changed`, for a name that is there
unfoldable pub is_changed : Dict Control → Dict Control → Text → Bool
is_changed v loaded name = not (same (string_of (lookup name v)) (string_of (lookup name loaded)))

abbrev pub name_changed : Dict Control → Dict Control → Option Text → Bool
name_changed v loaded none = false
name_changed v loaded (some name) = is_changed v loaded name

abbrev pub toggle_name : Section → Option Text
toggle_name section = elim section.toggle [ none ↦ none | some toggle ↦ some toggle.0 ]

-- the test of touchedKeys
unfoldable pub is_touched : Settings → Dict Control → Section → Field → Bool
is_touched s v section f =
    is_changed v s.loaded f.name
    || name_changed v s.loaded (toggle_name section)
    || name_changed v s.loaded f.optional_toggle
    || is_some (lookup f.name s.form.bracketed)

unfoldable pub touched_fields : Settings → Dict Control → Section → List Field → List Text
touched_fields s v section [] = []
touched_fields s v section (f ∷ fs) =
    let rest = touched_fields s v section fs in
    if is_touched s v section f then f.key ∷ rest else rest

unfoldable pub touched_sections : Settings → Dict Control → List Section → List Text
touched_sections s v [] = []
touched_sections s v (section ∷ ss) =
    touched_fields s v section section.fields ++ touched_sections s v ss

-- `touchedKeys`
unfoldable pub touched_keys_of : Settings → Dict Control → List Text
touched_keys_of s v = touched_sections s v (sections_of s.role)
