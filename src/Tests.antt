-- ===== src/Tests.antt =====
-- Runs of the code on small inputs, as applications of the theorems.
use frp_manager.Base.{
  ℕ, ◌<◌, ◌≤◌, map, join, some_of, if◌then◌else◌, List, none, ◌⊎◌, ◌||◌, starts_with, split, zero,
  Bool, true, not, some, none, [], ◌∷◌, ◌++◌, Text, ◌==◌, every, length, take, min, trim, codes,
  All, ◌≡◌, ◌≢◌, refl, arith,
}
use frp_manager.Toml.Scan.{split_comment, backslash, quote_mark}
use frp_manager.Toml.Scan.Inside.{IsPlain, split_comment-str, split_comment-str_note}
use frp_manager.Toml.Str.{action_length, str}
use mathlib.Core.Option
use frp_manager.Toml.Unquote.{unquote, unescape_basic}
use frp_manager.Toml.Unquote.Points.{hex_before, IsUtf16, unescape_basic-hex_before}
use frp_manager.Toml.Unquote.RoundTrip.{in_actions, unquote-str}
use frp_manager.Toml.Ports.{port_spec_count, range_names, max_names, part_range, is_port_part}
use frp_manager.Toml.Ports.Count.{IsValidPart, parts_of, port_spec_count_invalid}
use frp_manager.Toml.Ports.Names.{length-range_names}
use frp_manager.Toml.Ports.Written.{
  single, span, range_text, port_name, all_ports, range_names-range_text,
}
use frp_manager.Toml.Headers.{proxies}
use frp_manager.Toml.Generate.{pair_line}
use frp_manager.Toml.Parse.{State, Open, initial, read_lines, read_line, store_in_block}
use frp_manager.Toml.Parse.Bare.{read_line-bare}
use frp_manager.Toml.Parse.Ends.{Run, read_lines_ends}
use frp_manager.Toml.Parse.Written.{read_line-str}
use frp_manager.Toml.Hosts.{is_colon, join_host_port, fix_host_port}
use frp_manager.Toml.Hosts.Brackets.{join_host_port_lem}

All-of_every {ℓ} :
    {P : ℕ → Type ℓ} (p : ℕ → Bool) (sound : (c : ℕ) → p c ≡ true → P c) (xs : Text)
    → every p xs ≡ true
    → All P xs
All-of_every p sound [] h = tt
All-of_every p sound (x ∷ xs) h = (sound x (ground arith), All-of_every p sound xs (ground arith))

abbrev spoken : Text
spoken = codes "\"hi\" {{ .A }} # 1"

spoken_actions : All (λ c. c ≢ backslash) (in_actions zero spoken)
unfolding action_length starts_with
spoken_actions =
    All-of_every {P = λ c. c ≢ backslash} (λ c. not (c == backslash)) (λ c h. ground arith)
      (in_actions zero spoken) refl

spoken-IsPlain : All IsPlain (in_actions zero spoken)
unfolding action_length starts_with
spoken-IsPlain =
    All-of_every {P = IsPlain} (λ c. not (c == backslash || c == quote_mark)) (λ c h. ground arith)
      (in_actions zero spoken) refl

unquote-str_example : unquote (str spoken) ≡ some spoken
unquote-str_example = unquote-str spoken spoken_actions

split_comment-str_example : split_comment (32 ∷ str spoken) ≡ (str spoken, [])
split_comment-str_example = split_comment-str spoken spoken-IsPlain

note_kept : trim (codes "# note") ≡ codes "# note"
unfolding trim
note_kept = refl

split_comment-str_note_example :
    split_comment (32 ∷ (str spoken ++ 32 ∷ codes "# note")) ≡ (str spoken, codes "# note")
split_comment-str_note_example =
    split_comment-str_note spoken (codes " note") spoken-IsPlain note_kept

abbrev range_ports : Text
range_ports = codes "6000-6002"

abbrev ports : Text
ports = codes "80, 6000-6002"

ports_count : port_spec_count ports ≡ 4
unfolding port_spec_count
ports_count = refl

ports_valid : port_spec_count ports ≢ 0
ports_valid e = omega (arith, ports_count, e)

port_spec_count_invalid_example : All IsValidPart (parts_of ports)
port_spec_count_invalid_example = port_spec_count_invalid ports ports_valid

single_valid : IsValidPart (codes "6000-6002")
unfolding is_port_part part_range
single_valid = record {
  written = refl;
  positive = omega arith;
  ordered = omega arith;
  bounded = omega arith;
}

range_valid : All IsValidPart (parts_of (codes "6000-6002"))
unfolding split parts_of
range_valid = (single_valid, tt)

range_names-range_text_example :
    range_names
      (codes "ssh")
      (join (codes ",") (map range_text (span 6000 6002 ∷ single 6007 ∷ [])))
    ≡ take 65535 (map (port_name (codes "ssh")) (all_ports (span 6000 6002 ∷ single 6007 ∷ [])))
range_names-range_text_example =
    range_names-range_text (codes "ssh") (span 6000 6002) (single 6007 ∷ [])

length-range_names_example :
    length (range_names (codes "ssh") ports) ≡ min max_names (port_spec_count ports)
length-range_names_example = length-range_names (codes "ssh") ports ports_valid

join_host_port_lem_example :
    (join_host_port (codes "fe80::1") (codes "6000") ≡ (
      if some_of is_colon (codes "fe80::1")
      then b'[' ∷ (codes "fe80::1" ++ b']' ∷ b':' ∷ codes "6000")
      else codes "fe80::1" ++ b':' ∷ codes "6000"))
    × (fix_host_port (codes "fe80::1" ++ b':' ∷ codes "6000")
        ≡ join_host_port (codes "fe80::1") (codes "6000"))
    × (join_host_port (b'[' ∷ (codes "fe80::1" ++ b']' ∷ [])) (codes "6000")
        ≡ b'[' ∷ (codes "fe80::1" ++ b']' ∷ b':' ∷ codes "6000"))
    × (fix_host_port (b'[' ∷ (codes "fe80::1" ++ b']' ∷ b':' ∷ codes "6000"))
        ≡ b'[' ∷ (codes "fe80::1" ++ b']' ∷ b':' ∷ codes "6000"))
    × (fix_host_port (codes "fe80::1" ++ b':' ∷ []) ≡ codes "fe80::1" ++ b':' ∷ [])
join_host_port_lem_example = join_host_port_lem (codes "fe80::1") (codes "6000") refl refl refl

abbrev empty_open : Open
empty_open = record {
  kind = proxies;
  block = record { values = []; raw = []; order = []; comments = []; notes = []; range = none };
}

abbrev in_block : State
in_block = record initial { block = some empty_open; comments = codes "# why" ∷ [] }

abbrev name_line : Text
name_line = pair_line (codes "name") (str spoken)

read_line-str_example :
    read_line name_line (codes "type = \"tcp\"" ∷ []) in_block
    ≡ some (record {
      state = record in_block {
        comments = [];
        block = some (record empty_open {
          block =
              store_in_block
                (codes "name")
                spoken
                (record {
                  raw = str spoken;
                  eol = [];
                  inner = [];
                  rest = codes "type = \"tcp\"" ∷ [];
                })
                (codes "# why" ∷ [])
                empty_open.block;
        });
      };
      lines = codes "type = \"tcp\"" ∷ [];
    })
read_line-str_example =
    read_line-str b'n' (codes "ame") spoken refl spoken-IsPlain (codes "type = \"tcp\"" ∷ [])
      in_block empty_open refl

read_line-bare_example :
    read_line (pair_line (codes "localPort") (codes "6000")) [] in_block
    ≡ some (record {
      state = record in_block {
        comments = [];
        block = some (record empty_open {
          block =
              store_in_block
                (codes "localPort")
                (codes "6000")
                (record { raw = codes "6000"; eol = []; inner = []; rest = [] })
                (codes "# why" ∷ [])
                empty_open.block;
        });
      };
      lines = [];
    })
read_line-bare_example =
    read_line-bare b'l' (codes "ocalPort") b'6' (codes "000") refl refl [] in_block empty_open refl

abbrev few_lines : List Text
few_lines = codes "[[proxies]]" ∷ name_line ∷ []

read_lines_ends_example :
    ((last : State) × Run few_lines initial [] last × (read_lines 2 few_lines initial ≡ some last))
    ⊎ ((l : Text) × (rest : List Text) × (at : State) × Run few_lines initial (l ∷ rest) at
        × (read_line l rest at ≡ none)
        × (read_lines 2 few_lines initial ≡ none))
read_lines_ends_example = read_lines_ends 2 few_lines initial (omega arith)

abbrev face : Text
face = hex_before true 8 0x1f600 (codes "!")

unescape_basic-hex_before_example :
    ((0x10ffff < 0x1f600) × (unescape_basic (backslash ∷ b'U' ∷ face) ≡ none))
    ⊎ ((0x1f600 ≤ 0x10ffff)
        × (units : Text) × IsUtf16 units 0x1f600
        × (unescape_basic (backslash ∷ b'U' ∷ face)
            ≡ Option.map (◌++◌ units) (unescape_basic (codes "!"))))
unescape_basic-hex_before_example = unescape_basic-hex_before true 0x1f600 (codes "!") (omega arith)
