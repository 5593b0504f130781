-- ===== src/Toml/Merge/Write/Untouched.antt =====
-- A save in which no key has changed.
use frp_manager.Base.{
  ℕ, zero, suc, ◌+◌, ◌-◌, ◌≤◌, ◌<◌, Bool, true, false, ◌&&◌, some, List, [], ◌∷◌, Text, ltb,
  some_of, every, join, ◌==◌, ==_iff, includes, codes, All, ◌≡◌, ◌∙◌, refl, ap, arith, Bool-cases,
  inl, inr,
}
use frp_manager.Base.Dict.{Dict}
use frp_manager.Toml.Lines.{without_bom, split_lines, line_at, is_blank_line}
use frp_manager.Toml.Lines.Joined.{IsUnix, lone_cr-IsUnix, includes-IsUnix, join-split_lines}
use frp_manager.Toml.Connection.{Entry, Header, scan_connection}
use frp_manager.Toml.Connection.Entries.{Filled, scan_connection-Filled}
use frp_manager.Toml.Merge.Raws.{generated_raws}
use frp_manager.Toml.Merge.Keys.{File, no_changes, numbers, merge_keys}
use frp_manager.Toml.Merge.Write.{
  write_from, drop_tables, is_emptied, stop_of, region_of, merge_file, touched_keys, merged_lines,
  write_inline, write_root, write_tables, line_break, merge_connection, written,
}

write_from-no_changes : (i : ℕ) (ls : List Text) → write_from no_changes i ls ≡ ls
unfolding write_from
write_from-no_changes i [] = refl
write_from-no_changes i (l ∷ ls) = ap (◌∷◌ l) (write_from-no_changes (suc i) ls)

every-numbers :
    (p : ℕ → Bool) (i count k : ℕ)
    → every p (numbers i count) ≡ true
    → i ≤ k
    → k < i + count
    → p k ≡ true
every-numbers p i zero k h a b = absurd (omega arith)
every-numbers p i (suc count) k h a b = elim (Bool-cases (p i)) [
  | inr other ↦ absurd (cc (rw other at h))
  | inl first ↦ elim (Bool-cases (k == i)) [
    | inl here ↦ rw ((==_iff k i).0 here) first
    | inr further ↦ every-numbers p (suc i) count k (rw first at h) (ground arith) (omega arith)
  ]
]

some_of-All :
    (p : Entry → Bool) (Q : Entry → Type 0) (es : List Entry)
    → some_of p es ≡ true
    → All Q es
    → (e : Entry) × (p e ≡ true) × Q e
some_of-All p Q [] h all = absurd (cc)
some_of-All p Q (e ∷ es) h (q, qs) = elim (Bool-cases (p e)) [
  | inl found ↦ (e, found, q)
  | inr other ↦ some_of-All p Q es (rw other at h) qs
]

module _ (lines : List Text) where
  abbrev file_of : File
  file_of = record { lines = lines; scan = scan_connection lines }

  is_emptied-no_changes : (h : Header) → is_emptied file_of no_changes h ≡ false
  unfolding is_emptied
  is_emptied-no_changes h =
      let stop = stop_of file_of h in
      elim (Bool-cases
        (some_of (λ (e : Entry). ltb h.line e.start && ltb e.start stop) file_of.scan.entries)) [
          | inr bare ↦ rw bare refl
          | inl had ↦
              let (e, within, filled) =
                some_of-All _ (Filled 0 lines) file_of.scan.entries had
                  (scan_connection-Filled lines) in
              elim (Bool-cases
                (every (λ j. is_blank_line (line_at lines j)) (region_of file_of h))) [
                  | inr kept ↦ rw (had, kept) refl
                  | inl empty ↦
                      let blank : is_blank_line (line_at lines e.start) ≡ true =
                        every-numbers (λ j. is_blank_line (line_at lines j)) (suc h.line)
                          (stop - suc h.line) e.start empty (ground arith) (ground arith) in
                      let at_start : e.start - 0 ≡ e.start = omega arith in
                      absurd (cc (blank, rw at_start at filled.1))
                ]
        ]

  drop_tables-no_changes : (hs : List Header) → drop_tables file_of hs no_changes ≡ no_changes
  unfolding drop_tables
  drop_tables-no_changes [] = refl
  drop_tables-no_changes (h ∷ hs) = rw (is_emptied-no_changes h) (drop_tables-no_changes hs)

  merged_lines-no_changes : (crlf : Bool) → merged_lines file_of crlf no_changes ≡ lines
  unfolding merged_lines write_inline write_root write_tables
  merged_lines-no_changes crlf =
      let same_changes : drop_tables file_of file_of.scan.headers no_changes ≡ no_changes =
        drop_tables-no_changes file_of.scan.headers in
      rw same_changes (write_from-no_changes 0 lines)

touched_keys_nothing : (want : Dict Text) → touched_keys want [] ≡ []
unfolding touched_keys
touched_keys_nothing [] = refl
touched_keys_nothing (kv ∷ want) = touched_keys_nothing want

merge_file_nothing :
    (lines : List Text) (crlf : Bool) (want : Dict Text)
    → merge_file (file_of lines) crlf want [] ≡ some (written (join (line_break crlf) lines))
unfolding merge_file merge_keys
merge_file_nothing lines crlf want =
    rw (touched_keys_nothing want) (rw (merged_lines-no_changes lines crlf) refl)

-- A save in which no key has changed writes the text of the file back, whatever configuration is
-- generated: its comments, unknown keys, blank lines and template lines stay, and no table goes. The
-- text has no byte order mark and no carriage return.
pub merge_connection-untouched :
    (text generated : Text)
    → without_bom text ≡ text
    → IsUnix text
    → merge_connection text generated [] ≡ some (written text)
unfolding merge_connection
merge_connection-untouched text generated bom unix =
    let crlf = includes text (codes "\r\n") in
    rw (bom, lone_cr-IsUnix text unix, includes-IsUnix text unix)
      (merge_file_nothing (split_lines text) false (generated_raws generated)
        ∙ ap (λ t. some (written t)) (join-split_lines text unix))
