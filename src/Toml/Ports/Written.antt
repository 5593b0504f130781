-- ===== src/Toml/Ports/Written.antt =====
-- The names that `rangeNames` makes of ports and ranges written out.
use frp_manager.Base.{
  ℕ, zero, suc, ◌-◌, Bool, true, not, ◌||◌, List, [], ◌∷◌, ◌++◌, Text, ◌==◌, map, every, is_space,
  take, without, split, join, codes, All, ◌≡◌, refl, sym, ap, arith, ◌∙◌,
}
use frp_manager.Base.Splits.{split-append, split-alone, split-join}
use frp_manager.Base.TextLaws.{every-append}
use frp_manager.Base.Decimal.{decimal, is_digit}
use frp_manager.Base.Decimal.RoundTrip.{number_of-decimal, decimal-digits}
use frp_manager.Toml.Ports.{is_numeral_part, part_range, range_names}
use frp_manager.Toml.Ports.Count.{parts_of}
use frp_manager.Toml.Ports.Names.{port_names, all_names, range_names_lem}

-- One port, or the ports from the first to the second.
pub data WrittenRange : Type 0 where
  single : ℕ → WrittenRange
  span : ℕ → ℕ → WrittenRange

-- "6007" or "6000-6002"
abbrev pub range_text : WrittenRange → Text
range_text (single a) = decimal a
range_text (span a b) = decimal a ++ b'-' ∷ decimal b

-- so many numbers from the second on
abbrev pub numbers_from : ℕ → ℕ → List ℕ
numbers_from zero a = []
numbers_from (suc n) a = a ∷ numbers_from n (suc a)

abbrev pub ports_of : WrittenRange → List ℕ
ports_of (single a) = a ∷ []
ports_of (span a b) = numbers_from (suc b - a) a

abbrev pub all_ports : List WrittenRange → List ℕ
all_ports [] = []
all_ports (r ∷ rs) = ports_of r ++ all_ports rs

abbrev pub port_name : Text → ℕ → Text
port_name base port = base ++ b'-' ∷ decimal port

-- a character of a range, which is neither a comma nor white space
is_range_char : ℕ → Bool
is_range_char c = is_digit c || c == b'-'

digits-IsRange : (s : Text) → every is_digit s ≡ true → every is_range_char s ≡ true
unfolding is_range_char
digits-IsRange [] h = refl
digits-IsRange (c ∷ s) h = ground (arith, digits-IsRange s)

range_text-chars : (r : WrittenRange) → every is_range_char (range_text r) ≡ true
unfolding is_range_char
range_text-chars (single a) = digits-IsRange (decimal a) (decimal-digits a)
range_text-chars (span a b) =
    rw
      (
        every-append is_range_char (decimal a) (b'-' ∷ decimal b),
        digits-IsRange (decimal a) (decimal-digits a),
        digits-IsRange (decimal b) (decimal-digits b),
      )
      refl

no_comma : (s : Text) → every is_range_char s ≡ true → every (λ c. not (c == b',')) s ≡ true
unfolding is_range_char
no_comma [] h = refl
no_comma (c ∷ s) h = ground (arith, no_comma s)

no_dash : (s : Text) → every is_digit s ≡ true → every (λ c. not (c == b'-')) s ≡ true
no_dash [] h = refl
no_dash (c ∷ s) h = ground (arith, no_dash s)

is_written : ℕ → Bool
is_written c = is_range_char c || c == b','

without-written : (s : Text) → every is_written s ≡ true → without is_space s ≡ s
unfolding is_written is_range_char
without-written [] h = refl
without-written (c ∷ s) h = ground (arith, without-written s)

range-IsWritten : (s : Text) → every is_range_char s ≡ true → every is_written s ≡ true
unfolding is_written
range-IsWritten [] h = refl
range-IsWritten (c ∷ s) h = ground (arith, range-IsWritten s)

join-IsWritten :
    (rs : List WrittenRange) → every is_written (join (codes ",") (map range_text rs)) ≡ true
unfolding join is_written is_range_char
join-IsWritten [] = refl
join-IsWritten (r ∷ []) = range-IsWritten (range_text r) (range_text-chars r)
join-IsWritten (r ∷ q ∷ rs) =
    rw
      (
        every-append is_written (range_text r) (b',' ∷ join (codes ",") (map range_text (q ∷ rs))),
        range-IsWritten (range_text r) (range_text-chars r),
        join-IsWritten (q ∷ rs),
      )
      refl

ranges-no_comma :
    (rs : List WrittenRange) → All (λ s. every (λ c. not (c == b',')) s ≡ true) (map range_text rs)
ranges-no_comma [] = tt
ranges-no_comma (r ∷ rs) = (no_comma (range_text r) (range_text-chars r), ranges-no_comma rs)

parts_of-join :
    (r : WrittenRange) (rs : List WrittenRange)
    → parts_of (join (codes ",") (map range_text (r ∷ rs))) ≡ map range_text (r ∷ rs)
unfolding parts_of
parts_of-join r rs =
    rw (without-written (join (codes ",") (map range_text (r ∷ rs))) (join-IsWritten (r ∷ rs)))
      (split-join b',' (range_text r) (map range_text rs) (ranges-no_comma (r ∷ rs)))

split-range_text :
    (a b : ℕ) → split b'-' (decimal a ++ b'-' ∷ decimal b) ≡ decimal a ∷ decimal b ∷ []
split-range_text a b =
    split-append b'-' (decimal a) (decimal b) (no_dash (decimal a) (decimal-digits a))
    ∙ ap (◌∷◌ (decimal a)) (split-alone b'-' (decimal b) (no_dash (decimal b) (decimal-digits b)))

port_names-numbers_from :
    (base : Text) (n a : ℕ) → port_names base n a ≡ map (port_name base) (numbers_from n a)
port_names-numbers_from base zero a = refl
port_names-numbers_from base (suc n) a =
    ap (◌∷◌ (port_name base a)) (port_names-numbers_from base n (suc a))

-- the names of one written part
all_names-range_text :
    (base : Text) (r : WrittenRange) (parts : List Text)
    → all_names base (range_text r ∷ parts)
      ≡ map (port_name base) (ports_of r) ++ all_names base parts
unfolding part_range is_numeral_part
all_names-range_text base (single a) parts =
    let one : suc a - a ≡ 1 = omega arith in
    rw (split-alone b'-' (decimal a) (no_dash (decimal a) (decimal-digits a)))
      (rw (decimal-digits a, number_of-decimal a) (rw one refl))
all_names-range_text base (span a b) parts = rw (split-range_text a b) (
    rw (decimal-digits a, decimal-digits b, number_of-decimal a, number_of-decimal b)
      (ap (λ names. names ++ all_names base parts) (port_names-numbers_from base (suc b - a) a)))

map-append : (f : ℕ → Text) (xs ys : List ℕ) → map f (xs ++ ys) ≡ map f xs ++ map f ys
map-append f [] ys = refl
map-append f (x ∷ xs) ys = ap (◌∷◌ (f x)) (map-append f xs ys)

all_names-all_ports :
    (base : Text) (rs : List WrittenRange)
    → all_names base (map range_text rs) ≡ map (port_name base) (all_ports rs)
all_names-all_ports base [] = refl
all_names-all_ports base (r ∷ rs) =
    all_names-range_text base r (map range_text rs)
    ∙ ap (◌++◌ (map (port_name base) (ports_of r))) (all_names-all_ports base rs)
    ∙ sym (map-append (port_name base) (ports_of r) (all_ports rs))

-- For ports "a" and ranges "a-b" written between commas, `rangeNames` gives "base-<port>" for the
-- port a, and for each port from a to b, in the order of the entry, and stops after 65535 names. A
-- range that ends before it starts has no names.
pub range_names-range_text :
    (base : Text) (r : WrittenRange) (rs : List WrittenRange)
    → range_names base (join (codes ",") (map range_text (r ∷ rs)))
      ≡ take 65535 (map (port_name base) (all_ports (r ∷ rs)))
range_names-range_text base r rs =
    range_names_lem base (join (codes ",") (map range_text (r ∷ rs)))
    ∙ ap (take 65535) (ap (all_names base) (parts_of-join r rs) ∙ all_names-all_ports base (r ∷ rs))
