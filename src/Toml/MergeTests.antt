-- ===== src/Toml/MergeTests.antt =====
-- Runs of `mergeConnection` of toml.js on a small file.
use frp_manager.Base.{
  [], ◌∷◌, some, Text, codes, ◌≡◌, refl, same, starts_with, includes, split, join, trim,
}
use frp_manager.Base.Dict.{lookup, store}
use frp_manager.Base.Int.{◌+ℤ◌}
use frp_manager.Toml.Scan.{key_end, split_comment}
use frp_manager.Toml.KeyPath.{key_path}
use frp_manager.Toml.Unquote.{unquote}
use frp_manager.Toml.Headers.{strip_head, block_prefix}
use frp_manager.Toml.Lines.{lone_cr, split_lines}
use frp_manager.Toml.Connection.{
  tpl_delta, see_header, see_key, see_line, further_lines, scan_from, scan_connection,
}
use frp_manager.Toml.Merge.Raws.{set_raw, generated_raws, entry_value}
use frp_manager.Toml.Merge.Keys.{merge_key, merge_keys, set_inside, add_key}
use frp_manager.Toml.Merge.Write.{
  write_inline, write_root, write_tables, drop_tables, write_from, merged_lines, merge_file,
  merge_connection, written, refused,
}

abbrev old_file : Text
old_file = codes "a = 1 # note\n[auth]\ntoken = \"x\"\n"

merge_tests :
    (merge_connection old_file
        (codes "a = 2\n[auth]\nmethod = \"m\"\n")
        (codes "a" ∷ codes "auth.method" ∷ [])
      ≡ some (written (codes "a = 2 # note\n[auth]\ntoken = \"x\"\nmethod = \"m\"\n")))
    × (merge_connection old_file [] (codes "auth.token" ∷ [])
        ≡ some (written (codes "a = 1 # note\n")))
    × (merge_connection
          (codes "a = 1\n\n[[proxies]]\nname = \"p\"\n")
          (codes "[log]\nto = \"c\"\n")
          (codes "log.to" ∷ [])
        ≡ some (written (codes "a = 1\n\n[log]\nto = \"c\"\n\n[[proxies]]\nname = \"p\"\n")))
    × (merge_connection
          (codes "auth = { token = \"x\" }\n")
          (codes "[auth]\ntoken = \"y\"\n")
          (codes "auth.token" ∷ [])
        ≡ some (written (codes "auth = { token = \"y\" }\n")))
    × (merge_connection
          (codes "auth = 1\n")
          (codes "[auth]\ntoken = \"y\"\n")
          (codes "auth.token" ∷ [])
        ≡ some (refused (codes "auth.token" ∷ [])))
unfolding set_raw merge_connection merge_file merge_keys merge_key set_inside add_key generated_raws
    merged_lines write_inline write_root write_tables drop_tables write_from scan_connection
    scan_from see_line see_key see_header strip_head block_prefix key_path split_comment
    further_lines key_end tpl_delta unquote entry_value lone_cr split_lines same starts_with
    includes split join trim lookup store ◌+ℤ◌
merge_tests = (refl, refl, refl, refl, refl)
