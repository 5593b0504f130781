-- ===== src/Toml/Headers.antt =====
-- Header lines in toml.js: blockKind and isBlockSub.
use frp_manager.Base.{
  is_some, ℕ, zero, suc, false, ◌∷◌, [], ◌-◌, Bool, true, not, ◌&&◌, ◌||◌, Option, none, some, Text,
  if◌then◌else◌, length, take, drop, slice, starts_with, ends_with, same, trim, codes, ◌≡◌, ◌≢◌,
  arith, refl, Option-cases, inl, inr, is_space, trim_start, trim_end,
}
use frp_manager.Toml.Scan.{split_comment, comment_at}
use frp_manager.Toml.KeyPath.{key_path}

-- the two kinds of blocks, [[proxies]] and [[visitors]]
pub data Kind : Type 0 where
  proxies visitors : Kind

-- `code.replace(/^\[\[?|\]\]?$/g, '')`
unfoldable pub strip_head : Text → Text
unfolding starts_with ends_with
strip_head code =
    let front =
      if starts_with code (codes "[[")
      then drop 2 code
      else if starts_with code (codes "[")
      then drop 1 code
      else code in
    if ends_with front (codes "]]")
    then take (length front - 2) front
    else if ends_with front (codes "]")
    then take (length front - 1) front
    else front

abbrev pub kind_of : Text → Option Kind
kind_of name =
    if same name (codes "proxies")
    then some proxies
    else if same name (codes "visitors")
    then some visitors
    else none

-- `blockKind`
unfoldable pub block_kind : Text → Option Kind
unfolding split_comment key_path starts_with ends_with same
block_kind line =
    let code = (split_comment (trim line)).0 in
    if not (starts_with code (codes "[[")) || not (ends_with code (codes "]]"))
    then none
    else kind_of (key_path (slice code 2 (length code - 2)))

-- `/^(?:proxies|visitors)\./`
unfoldable pub block_prefix : Text → Option Text
unfolding starts_with
block_prefix name =
    if starts_with name (codes "proxies.")
    then some (drop 8 name)
    else if starts_with name (codes "visitors.")
    then some (drop 9 name)
    else none

-- `isBlockSub`
unfoldable pub is_block_sub : Text → Bool
unfolding split_comment key_path starts_with strip_head block_prefix
is_block_sub line =
    let code = (split_comment (trim line)).0 in
    starts_with code (codes "[") && is_some (block_prefix (key_path (strip_head code)))

quoted_header : block_kind (codes " [[ \"proxies\" ]] # x") ≡ some proxies
unfolding block_kind
quoted_header = refl

quoted_sub : is_block_sub (codes "[ \"proxies\" . 'transport' ]") ≡ true
unfolding is_block_sub
quoted_sub = refl

starts-trim :
    (c : ℕ) (s p : Text)
    → is_space c ≡ false
    → c ≢ b'['
    → starts_with (trim (c ∷ s)) (b'[' ∷ p) ≡ false
unfolding starts_with trim trim_start trim_end
starts-trim c s p h k = ground arith

starts-split_comment :
    (c : ℕ) (s p : Text)
    → is_space c ≡ false
    → c ≢ b'['
    → starts_with (split_comment (c ∷ s)).0 (b'[' ∷ p) ≡ false
unfolding split_comment
starts-split_comment c s p h k = elim (Option-cases (comment_at (c ∷ s))) [
  | inl e ↦ rw (e, split_comment) (starts-trim c s p h k)
  | inr (zero, e) ↦ rw (e, split_comment) (unfold trim starts_with in refl)
  | inr (suc i, e) ↦ rw (e, split_comment) (starts-trim c (take i s) p h k)
]

-- A line that starts with no bracket opens no block.
pub block_kind-other :
    (c : ℕ) (s : Text)
    → is_space c ≡ false
    → c ≢ b'['
    → trim (c ∷ s) ≡ c ∷ s
    → block_kind (c ∷ s) ≡ none
unfolding block_kind
block_kind-other c s h k e = rw (e, starts-split_comment c s (b'[' ∷ []) h k)
