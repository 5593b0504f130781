-- ===== src/Panel/Config/Form.antt =====
-- The form of config.js: buildFields, values, isDirty and load. What the browser shows of a text is
-- a parameter: `shown` for a text in a field of one line, and `chosen` for a value of a choice.
use frp_manager.Base.{
  ℕ, Bool, true, false, not, ◌&&◌, ◌||◌, none, some, List, [], ◌∷◌, ◌++◌, Text, ◌==◌, if◌then◌else◌,
  map, keep, some_of, is_empty, same, trim, without, codes,
}
use frp_manager.Base.Dict.{Dict, lookup, assign}
use frp_manager.Toml.Hosts.{unbracket}
use frp_manager.Panel.Config.Schema.{FieldKind, Field, Section, Role, sections_of}

-- A control, as its value: a box that is checked or not, or a text.
pub data Control : Type 0 where
  box : Bool → Control
  line : Text → Control

-- `S.controls`, `S.addrs`, `S.bracketed` and `S.multiline`
pub record Form : Type 0 where
  pub controls : Dict Control
  pub addrs : List Text
  pub bracketed : Dict Text
  pub multiline : Dict Text

abbrev pub empty_form : Form
empty_form = record { controls = []; addrs = []; bracketed = []; multiline = [] }

-- `[\r\n]`
abbrev pub is_break : ℕ → Bool
is_break c = c == 13 || c == 10

-- `!!cfg[key]`
unfoldable pub is_set : Dict Text → Text → Bool
unfolding lookup
is_set cfg key = elim (lookup key cfg) [ none ↦ false | some raw ↦ not (is_empty raw) ]

-- `raw || ''`
unfoldable pub raw_of : Dict Text → Text → Text
unfolding lookup
raw_of cfg key = elim (lookup key cfg) [ none ↦ [] | some raw ↦ raw ]

-- `S.controls[name] = …`
unfoldable pub put_control : Text → Control → Form → Form
unfolding assign
put_control name c form = record form { controls = assign name c form.controls }

-- the line that fills `S.multiline`
unfoldable pub note_breaks : Field → Text → Form → Form
unfolding assign
note_breaks f raw form =
    if some_of is_break raw
    then record form { multiline = assign f.name raw form.multiline }
    else form

-- `S.addrs.add(…)`, and the line that fills `S.bracketed`
unfoldable pub note_address : Dict Text → Section → Field → Text → Form → Form
unfolding assign unbracket same is_set
note_address cfg section f raw form =
    let written : Bool = elim section.toggle [ none ↦ true | some toggle ↦ is_set cfg toggle.1 ] in
    let noted = record form { addrs = f.name ∷ form.addrs } in
    if not (is_empty raw) && not (same (unbracket (some raw)) raw) && written
    then record noted { bracketed = assign f.name raw form.bracketed }
    else noted

abbrev pub or_default : Text → Text → Text
or_default raw def = if is_empty raw then def else raw

-- the switch in front of an optional field
unfoldable pub put_optional : Field → Text → Form → Form
unfolding put_control
put_optional f raw form = elim f.optional_toggle [
  | none ↦ form
  | some name ↦ put_control name (Control.box (not (is_empty raw))) form
]

module _ (shown : Text → Text) (chosen : List Text → Text → Text) where
  -- the control of a field, once `raw` is read
  unfoldable pub put_field : Dict Text → Section → Field → Text → FieldKind → Form → Form
  unfolding put_control note_breaks note_address put_optional unbracket same
  put_field cfg section f raw FieldKind.switch form =
      put_control f.name (Control.box (same raw (codes "true"))) form
  put_field cfg section f raw (FieldKind.select options) form =
      let value = chosen options (or_default raw f.def) in
      put_optional f raw (put_control f.name (Control.line value) form)
  put_field cfg section f raw FieldKind.address form =
      let value = shown (unbracket (some (or_default raw f.def))) in
      let noted = note_address cfg section f raw (note_breaks f raw form) in
      put_optional f raw (put_control f.name (Control.line value) noted)
  put_field cfg section f raw _ form =
      let value = shown (or_default raw f.def) in
      put_optional f raw (put_control f.name (Control.line value) (note_breaks f raw form))

  -- the loop of `buildFields`
  unfoldable pub put_fields : Dict Text → Section → List Field → Form → Form
  unfolding put_field raw_of
  put_fields cfg section [] form = form
  put_fields cfg section (f ∷ fs) form =
      put_fields cfg section fs (put_field cfg section f (raw_of cfg f.key) f.kind form)

  -- `buildFields`
  unfoldable pub build_fields : Dict Text → Section → Form → Form
  unfolding put_fields put_control is_set
  build_fields cfg section form =
      let started : Form = elim section.toggle [
        | none ↦ form
        | some toggle ↦ put_control toggle.0 (Control.box (is_set cfg toggle.1)) form
      ] in
      put_fields cfg section section.fields started

  unfoldable pub build_sections : Dict Text → List Section → Form → Form
  unfolding build_fields
  build_sections cfg [] form = form
  build_sections cfg (s ∷ ss) form = build_sections cfg ss (build_fields cfg s form)

  -- the controls that load makes: those of the main sections first
  unfoldable pub form_of : Role → Dict Text → Form
  unfolding build_sections sections_of
  form_of role cfg =
      let sections = sections_of role in
      build_sections cfg
        (keep (λ (s : Section). not s.advanced) sections
          ++ keep (λ (s : Section). s.advanced) sections)
        empty_form

-- the value of a text field, in `values`
unfoldable pub text_value : Form → Text → Text → Text
unfolding lookup unbracket trim same
text_value form name value =
    let trimmed = trim value in
    let plain =
      if some_of (λ n. same n name) form.addrs then unbracket (some trimmed) else trimmed in
    elim (lookup name form.multiline) [
      | none ↦ plain
      | some orig ↦ if same value (without is_break orig) then orig else plain
    ]

unfoldable pub control_value : Form → Text → Control → Control
unfolding text_value
control_value form name (Control.box b) = Control.box b
control_value form name (Control.line s) = Control.line (text_value form name s)

-- `values`
unfoldable pub values : Form → Dict Control
unfolding control_value
values form = map (λ (nc : Text × Control). (nc.0, control_value form nc.0 nc.1)) form.controls
