-- ===== src/ConfigTests.antt =====
-- Runs of the page config.js on a small file, and the theorems about it applied to it.
use frp_manager.Base.{
  true, false, none, some, List, [], ◌∷◌, Text, if◌then◌else◌, some_of, same, trim, without, codes,
  ◌≡◌, refl,
}
use frp_manager.Base.Dict.{lookup, assign}
use frp_manager.Toml.Lines.Joined.{every-IsUnix}
use frp_manager.Toml.Parse.{parse_lines}
use frp_manager.Toml.Blocks.Prep.{parse_toml}
use frp_manager.Toml.Hosts.{unbracket}
use frp_manager.Panel.Config.Schema.{Role, sections_of}
use frp_manager.Panel.Config.Form.{
  Control, empty_form, is_break, form_of, values, build_sections, build_fields, put_fields,
  put_field, put_control, raw_of, is_set, note_breaks, note_address, put_optional, control_value,
  text_value,
}
use frp_manager.Panel.Config.Touched.{
  Settings, load_form, show_parsed, show_form, touched_keys_of, touched_sections, touched_fields,
  is_touched, is_changed, string_of,
}
use frp_manager.Panel.Config.Save.{FileAnswer, Content, content_to_save}
use frp_manager.Panel.Config.Save.Untouched.{Rests, IsFile, Rests-untouched, loads}

abbrev file : Text
file = codes "bindPort = 7001\n# mine\nallowPorts = []\n"

-- the value of a text field and of a choice in the browser
abbrev shown : Text → Text
shown s = without is_break s

abbrev chosen : List Text → Text → Text
chosen options s = if some_of (same s) options then s else []

abbrev before : Settings
before = record {
  role = Role.frps;
  iid = codes "frps";
  form = empty_form;
  loaded = [];
  snapshot = none;
}

abbrev loaded_page : Settings
loaded_page = elim (load_form shown chosen false file before) [ none ↦ before | some s ↦ s ]

load_file : load_form shown chosen false file before ≡ some loaded_page
unfolding load_form show_parsed parse_toml parse_lines
load_file = refl

no_brackets : loaded_page.form.bracketed ≡ []
unfolding load_form show_parsed show_form parse_toml parse_lines form_of build_sections build_fields
    put_fields put_field raw_of lookup same assign sections_of
no_brackets = refl

loaded_page-Rests : Rests shown chosen loaded_page
loaded_page-Rests = loads false file before load_file no_brackets

-- the file, read again with a line that was added meanwhile
abbrev later : FileAnswer
later = record { text = codes "bindPort = 7001\nlog.level = \"warn\"\n# mine\n"; exists = true }

later-IsFile : IsFile later
unfolding trim
later-IsFile = record {
  there = refl;
  filled = refl;
  bare = refl;
  unix = every-IsUnix later.text refl;
}

Rests-untouched_example :
    content_to_save loaded_page (codes "by") (some later) ≡ Content.content later.text
Rests-untouched_example =
    Rests-untouched shown chosen (codes "by") later loaded_page-Rests later-IsFile

-- another port, and nothing else
abbrev edited : Settings
edited = record loaded_page {
  form = record loaded_page.form {
    controls = assign (codes "bindPort") (Control.line (codes " 7002 ")) loaded_page.form.controls;
  };
}

touched_test : touched_keys_of edited (values edited.form) ≡ codes "bindPort" ∷ []
unfolding load_form show_parsed show_form parse_toml parse_lines form_of build_sections build_fields
    put_fields put_field raw_of lookup same assign sections_of touched_keys_of touched_sections
    touched_fields is_touched is_changed string_of values control_value text_value trim unbracket
    is_set put_control put_optional note_breaks note_address
touched_test = refl
