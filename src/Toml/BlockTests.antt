-- ===== src/Toml/BlockTests.antt =====
-- Runs of the code about whole files of toml.js on small texts.
use frp_manager.Base.{[], some, Text, codes, ◌≡◌, refl}
use frp_manager.Toml.Blocks.Prep.{prep}
use frp_manager.Toml.Blocks.Strip.{strip_blocks, extract_blocks}
use frp_manager.Toml.Blocks.Tables.{open_value, keep_line, read_table_line, tables_after_blocks}
use frp_manager.Toml.Brackets.{bracket_depth}
use frp_manager.Toml.Headers.{block_kind, is_block_sub}
use frp_manager.Toml.Blocks.Compose.{
  break_at, quoted_address, quoted_value, bracketed_line, unbracket_line, table_after,
  unbracket_connection, compose_client_config,
}

abbrev some_file : Text
some_file =
    codes
      "a = 1\n# note\n{{- range $_, $v := parseNumberRange \"1-2\" }}\n[[proxies]]\nname = \"p\"\n\n[log]\nto = \"c\"\n"

block_tests :
    (strip_blocks some_file ≡ codes "a = 1")
    × (extract_blocks (codes "a = 1\n[[ 'proxies' ]]\nname = \"p\"\n")
        ≡ codes "[[ 'proxies' ]]\nname = \"p\"")
    × (tables_after_blocks some_file ≡ codes "[log]\nto = \"c\"")
    × (prep (codes "a = 1\nproxies = [ { name = \"p\", x = { y = 2 } } ]\n")
        ≡ codes "a = 1\n\n[[proxies]]\nname = \"p\"\nx.y = 2\n")
unfolding strip_blocks extract_blocks tables_after_blocks prep read_table_line block_kind keep_line
    open_value bracket_depth is_block_sub
block_tests = (refl, refl, refl, refl)

unbracket_tests :
    (unbracket_connection
        (codes "serverAddr = \"[::1]\" # x\n[webServer]\naddr = '[::2]'\nuser = \"[a]\"")
      ≡ codes "serverAddr = \"::1\" # x\n[webServer]\naddr = '::2'\nuser = \"[a]\"")
    × (compose_client_config (codes "a = 1\n# end\n") [] [] ≡ some (codes "a = 1\n# end\n"))
unfolding unbracket_connection bracketed_line quoted_address quoted_value unbracket_line table_after
    compose_client_config break_at read_table_line block_kind keep_line open_value bracket_depth
    is_block_sub
unbracket_tests = (refl, refl)
