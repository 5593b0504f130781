-- ===== src/Panel/Config/Save/Untouched.antt =====
-- A form in which nothing has changed writes the text of its file back.
use frp_manager.Base.{
  Bool, true, false, Option, none, some, List, [], ◌∷◌, Text, is_empty, same_refl, trim, ◌≡◌, refl,
  ap, subst, ◌∙◌,
}
use frp_manager.Base.Dict.{Dict, lookup}
use frp_manager.Toml.Lines.{without_bom}
use frp_manager.Toml.Lines.Joined.{IsUnix}
use frp_manager.Toml.Parse.{Config}
use frp_manager.Toml.Blocks.Prep.{parse_toml}
use frp_manager.Toml.Merge.Write.Untouched.{merge_connection-untouched}
use frp_manager.Panel.Config.Schema.{Field, Section, sections_of}
use frp_manager.Panel.Config.Form.{Control, Form, values, form_of}
use frp_manager.Panel.Config.Touched.{
  Settings, show_form, show_parsed, load_form, string_of, is_changed, name_changed, toggle_name,
  is_touched, touched_fields, touched_sections, touched_keys_of,
}
use frp_manager.Panel.Config.Save.{
  FileAnswer, Content, merge_into_file, content_to_save, after_stored, content_of_merged,
}

-- The values read last are those that the form shows, and no address is to be corrected.
pub record IsSettled (s : Settings) : Type 0 where
  pub shown : s.loaded ≡ values s.form
  pub plain : s.form.bracketed ≡ []

is_changed_same : (v : Dict Control) (name : Text) → is_changed v v name ≡ false
unfolding is_changed
is_changed_same v name = rw (same_refl (string_of (lookup name v))) refl

name_changed_same : (v : Dict Control) (name : Option Text) → name_changed v v name ≡ false
name_changed_same v none = refl
name_changed_same v (some name) = is_changed_same v name

module _ (s : Settings) (settled : IsSettled s) where
  is_touched-settled :
      (section : Section) (f : Field) → is_touched s (values s.form) section f ≡ false
  unfolding is_touched lookup
  is_touched-settled section f =
      let v = values s.form in
      rw
        (
          settled.shown,
          is_changed_same v f.name,
          name_changed_same v (toggle_name section),
          name_changed_same v f.optional_toggle,
          settled.plain,
        )
        refl

  touched_fields-settled :
      (section : Section) (fs : List Field) → touched_fields s (values s.form) section fs ≡ []
  unfolding touched_fields
  touched_fields-settled section [] = refl
  touched_fields-settled section (f ∷ fs) =
      rw (is_touched-settled section f) (touched_fields-settled section fs)

  touched_sections-settled : (ss : List Section) → touched_sections s (values s.form) ss ≡ []
  unfolding touched_sections
  touched_sections-settled [] = refl
  touched_sections-settled (section ∷ ss) =
      rw (touched_fields-settled section section.fields) (touched_sections-settled ss)

  touched_keys_of-settled : touched_keys_of s (values s.form) ≡ []
  unfolding touched_keys_of
  touched_keys_of-settled = touched_sections-settled (sections_of s.role)

-- A file that is there and holds more than white space, with no byte order mark and no carriage
-- return.
pub record IsFile (d : FileAnswer) : Type 0 where
  pub there : d.exists ≡ true
  pub filled : is_empty (trim d.text) ≡ false
  pub bare : without_bom d.text ≡ d.text
  pub unix : IsUnix d.text

merge_into_file-untouched :
    (d : FileAnswer) (generated : Text)
    → IsFile d
    → merge_into_file (some d) generated [] ≡ Content.content d.text
unfolding merge_into_file content_of_merged
merge_into_file-untouched d generated file =
    rw (file.there, file.filled, merge_connection-untouched d.text generated file.bare file.unix)
      refl

content_to_save-settled :
    (s : Settings) (by : Text) (d : FileAnswer)
    → IsSettled s
    → IsFile d
    → content_to_save s by (some d) ≡ Content.content d.text
unfolding content_to_save
content_to_save-settled s by d settled file =
    rw (touched_keys_of-settled s settled) (merge_into_file-untouched d _ file)

-- A form as `load` leaves it where no address of the file stands between brackets, or as a save that
-- has been stored leaves it.
pub data Rests (shown : Text → Text) (chosen : List Text → Text → Text) : Settings → Type 0 where
  loads :
      {s : Settings} (discarded : Bool) (text : Text) (before : Settings)
      → load_form shown chosen discarded text before ≡ some s
      → s.form.bracketed ≡ []
      → Rests shown chosen s
  stores : (before : Settings) → Rests shown chosen (after_stored shown before)

show_form-IsSettled :
    (discarded : Bool) (form : Form) (s : Settings)
    → form.bracketed ≡ []
    → IsSettled (show_form discarded form s)
unfolding show_form
show_form-IsSettled discarded form s h = record { shown = refl; plain = h }

module _ (shown : Text → Text) (chosen : List Text → Text → Text) where
  show_parsed-IsSettled :
      (discarded : Bool) (before s : Settings) (cfg : Option Config)
      → show_parsed shown chosen discarded before cfg ≡ some s
      → s.form.bracketed ≡ []
      → IsSettled s
  unfolding show_parsed show_form
  show_parsed-IsSettled discarded before s none e plain = absurd (cc)
  show_parsed-IsSettled discarded before s (some cfg) e plain =
      let form = form_of shown chosen before.role cfg.values in
      let same_page : show_form discarded form before ≡ s = cc in
      subst IsSettled same_page
        (show_form-IsSettled discarded form before (ap (λ p. p.form.bracketed) same_page ∙ plain))

  Rests-IsSettled : {s : Settings} → Rests shown chosen s → IsSettled s
  unfolding after_stored load_form
  Rests-IsSettled (loads discarded text before e plain) =
      show_parsed-IsSettled discarded before _ (parse_toml text) e plain
  Rests-IsSettled (stores before) = record { shown = refl; plain = refl }

  -- Where no field is changed after the form has been loaded, from a file without an address between
  -- brackets, or after a save that was stored, a save posts the text of the file that it reads again
  -- then, whatever that text is: one that is there, with more than white space, no byte order mark and
  -- no carriage return.
  pub Rests-untouched :
      {s : Settings} (by : Text) (d : FileAnswer)
      → Rests shown chosen s
      → IsFile d
      → content_to_save s by (some d) ≡ Content.content d.text
  Rests-untouched {s = s} by d rests file =
      content_to_save-settled s by d (Rests-IsSettled rests) file
