-- ===== src/Panel/Config/Save.antt =====
-- save and isDirty of config.js, and the file that the changed keys are written into: mergeIntoFile.
-- An answer of the panel is `none` where the request fails; `by` is the end of the first line of a
-- generated file.
pub mod Untouched
use frp_manager.Base.{
  Bool, true, false, not, ◌&&◌, ◌||◌, Option, none, some, List, [], ◌∷◌, Text, if◌then◌else◌, keep,
  is_empty, same, trim,
}
use frp_manager.Base.Dict.{Dict, lookup, assign}
use frp_manager.Toml.Pairs.{same_bit}
use frp_manager.Toml.Merge.Write.{Merged, merge_connection}
use frp_manager.Panel.Config.Form.{Control, Form, values}
use frp_manager.Panel.Config.Touched.{Settings, touched_keys_of}
use frp_manager.Panel.Config.Generated.{generated_for}

unfoldable pub same_values : Dict Control → Dict Control → Bool
unfolding same
same_values [] [] = true
same_values ((k, Control.box a) ∷ xs) ((l, Control.box b) ∷ ys) =
    same k l && same_bit a b && same_values xs ys
same_values ((k, Control.line a) ∷ xs) ((l, Control.line b) ∷ ys) =
    same k l && same a b && same_values xs ys
same_values _ _ = false

-- `isDirty`, where `may_write` is the answer of `can`
unfoldable pub is_form_dirty : Bool → Settings → Bool
unfolding same_values values
is_form_dirty may_write s =
    may_write
    && elim s.snapshot [ none ↦ false | some before ↦ not (same_values (values s.form) before) ]

-- the answer to /api/config/…
pub record FileAnswer : Type 0 where
  pub text : Text
  pub exists : Bool

-- The content to save, or the error that mergeIntoFile throws.
pub data Content : Type 0 where
  content : Text → Content
  unread : Content
  keys_refused : List Text → Content
  thrown : Content

-- what mergeConnection returns or throws
unfoldable pub content_of_merged : Option Merged → Content
content_of_merged none = Content.thrown
content_of_merged (some (Merged.refused keys)) = Content.keys_refused keys
content_of_merged (some (Merged.written text)) = Content.content text

-- `mergeIntoFile`
unfoldable pub merge_into_file : Option FileAnswer → Text → List Text → Content
merge_into_file none generated touched = Content.unread
merge_into_file (some d) generated touched =
    if not d.exists || is_empty (trim d.text)
    then Content.content generated
    else content_of_merged (merge_connection d.text generated touched)

-- `content` in save
unfoldable pub content_to_save : Settings → Text → Option FileAnswer → Content
content_to_save s by answer =
    let v = values s.form in
    merge_into_file answer (generated_for s.role v s.iid by) (touched_keys_of s v)

-- `S.multiline`, without the fields that have changed
unfoldable pub kept_breaks : Dict Control → Dict Text → Dict Text
unfolding lookup same
kept_breaks v multiline =
    keep
      (λ (nr : Text × Text). elim (lookup nr.0 v) [
        | some (Control.line s) ↦ same s nr.1
        | _ ↦ false
      ])
      multiline

module _ (shown : Text → Text) where
  -- `S.controls[name].value = v[name]` for each address
  unfoldable pub show_addresses : Dict Control → List Text → Dict Control → Dict Control
  unfolding assign lookup
  show_addresses v [] controls = controls
  show_addresses v (name ∷ names) controls =
      let value = elim (lookup name v) as (λ _. Control) [
        | some (Control.line s) ↦ Control.line (shown s)
        | _ ↦ Control.line []
      ] in
      show_addresses v names (assign name value controls)

  -- the rest of save once the file is stored, without a restart
  unfoldable pub after_stored : Settings → Settings
  after_stored s =
      let v = values s.form in
      let form = record s.form {
        controls = show_addresses v s.form.addrs s.form.controls;
        multiline = kept_breaks v s.form.multiline;
        bracketed = [];
      } in
      let loaded = values form in record s { form = form; loaded = loaded; snapshot = some loaded }

  -- `save(false)`; `stored` tells whether the panel has stored the content that is posted
  unfoldable pub save_config : Settings → Text → Option FileAnswer → Bool → Settings
  save_config s by answer stored = elim (content_to_save s by answer) [
    | Content.content _ ↦ if stored then after_stored s else s
    | _ ↦ s
  ]
