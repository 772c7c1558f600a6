-- ===== src/Base/Strings.antt =====
-- What std's `str` and its parsers of integers do on texts: cutting, trimming, and reading numbers.
pub mod Split
pub mod Digits
use rctpower_protocol.Base.{ℕ, zero, suc, ◌+◌, ◌-◌, ◌*◌, ◌^◌, Bool, true, false, not, ◌&&◌, ◌||◌}
use rctpower_protocol.Base.{Option, none, some, List, [], ◌∷◌, ◌++◌, map, is_empty, leb, ltb}
use rctpower_protocol.Base.{◌==◌}
use rctpower_protocol.Base.{if◌then◌else◌}
use rctpower_protocol.Base.Int.{ℤ, pos, negsuc}
use rctpower_protocol.Base.Text.{Text, text_eq}

-- The first piece grows by a byte.
abbrev pub longer : ℕ → List Text → List Text
longer c [] = (c ∷ []) ∷ []
longer c (l ∷ ls) = (c ∷ l) ∷ ls

-- `s.split(c)`.
unfoldable pub split : ℕ → Text → List Text
split c [] = [] ∷ []
split c (d ∷ s) = let rest = split c s in if d == c then [] ∷ rest else longer d rest

-- `s.split_inclusive(c)`.
unfoldable pub split_inclusive : ℕ → Text → List Text
split_inclusive c [] = []
split_inclusive c (d ∷ s) =
    let rest = split_inclusive c s in if d == c then (d ∷ []) ∷ rest else longer d rest

-- `s.strip_suffix(c)`.
unfoldable pub strip_suffix : ℕ → Text → Option Text
strip_suffix c [] = none
strip_suffix c (d ∷ []) = if d == c then some [] else none
strip_suffix c (d ∷ e ∷ s) = elim (strip_suffix c (e ∷ s)) [ none ↦ none | some t ↦ some (d ∷ t) ]

-- A line without its `\n` and a `\r` before that; a last line that has no `\n` stays as it is.
unfoldable pub strip_line : Text → Text
strip_line l = elim (strip_suffix b'\n' l) [
  | none ↦ l
  | some m ↦ elim (strip_suffix b'\r' m) [ none ↦ m | some n ↦ n ]
]

-- `s.lines()`.
unfoldable pub lines : Text → List Text
lines s = map strip_line (split_inclusive b'\n' s)

-- `s.trim_end_matches(c)`.
unfoldable pub trim_end : ℕ → Text → Text
trim_end c [] = []
trim_end c (d ∷ s) = let rest = trim_end c s in if is_empty rest && d == c then [] else d ∷ rest

-- `s.trim_start_matches("0x")`, as often as it stands there.
unfoldable pub trim_0x : Text → Text
trim_0x [] = []
trim_0x (c ∷ []) = c ∷ []
trim_0x (c ∷ d ∷ s) = let rest = trim_0x s in if c == b'0' && d == b'x' then rest else c ∷ d ∷ s

-- `char::is_whitespace` on ASCII.
abbrev is_space : ℕ → Bool
is_space c = c == b' ' || (leb 9 c && leb c 13)

unfoldable pub trim_left : Text → Text
trim_left [] = []
trim_left (c ∷ s) = let rest = trim_left s in if is_space c then rest else c ∷ s

unfoldable pub trim_right : Text → Text
trim_right [] = []
trim_right (c ∷ s) = let rest = trim_right s in if is_empty rest && is_space c then [] else c ∷ rest

-- `s.trim()` of an ASCII text.
unfoldable pub trim : Text → Text
unfolding trim_left trim_right
trim s = trim_right (trim_left s)

-- `s.starts_with(p)`.
unfoldable pub starts_with : Text → Text → Bool
starts_with [] s = true
starts_with (c ∷ p) [] = false
starts_with (c ∷ p) (d ∷ s) = (c == d) && starts_with p s

-- `s.contains(p)`.
unfoldable pub contains : Text → Text → Bool
unfolding starts_with
contains p [] = is_empty p
contains p (c ∷ s) = starts_with p (c ∷ s) || contains p s

-- `s[s.find(c)? + 1..]`.
unfoldable pub behind : ℕ → Text → Option Text
behind c [] = none
behind c (d ∷ s) = if d == c then some s else behind c s

-- `char::to_digit`.
abbrev digit_value : ℕ → ℕ
digit_value c =
    if leb b'0' c && leb c b'9'
    then c - b'0'
    else if leb b'A' c && leb c b'Z'
    then c - b'A' + 10
    else if leb b'a' c && leb c b'z'
    then c - b'a' + 10
    else 36

unfoldable pub to_digit : ℕ → ℕ → Option ℕ
to_digit radix c = let v = digit_value c in if ltb v radix then some v else none

-- The digits of a number behind `acc`, with a checked sum: `none` at any other byte, and when the
-- number would exceed `max`.
unfoldable pub digits : ℕ → ℕ → ℕ → Text → Option ℕ
digits radix max acc [] = some acc
digits radix max acc (c ∷ s) = elim (to_digit radix c) [
  | none ↦ none
  | some v ↦
      let sum = acc * radix + v in
      let rest = digits radix max sum s in if leb sum max then rest else none
]

-- The digits behind the sign, of which there is at least one.
unfoldable pub unsigned_digits : ℕ → ℕ → Text → Option ℕ
unfolding digits
unsigned_digits radix max [] = none
unsigned_digits radix max (c ∷ s) = digits radix max 0 (c ∷ s)

-- `from_str_radix` of an unsigned type up to `max`; `parse` is the one of radix 10.
unfoldable pub parse_unsigned : ℕ → ℕ → Text → Option ℕ
unfolding unsigned_digits
parse_unsigned radix max [] = none
parse_unsigned radix max (c ∷ s) =
    if c == b'+' then unsigned_digits radix max s else unsigned_digits radix max (c ∷ s)

-- `-n`.
abbrev pub negated : ℕ → ℤ
negated zero = pos zero
negated (suc n) = negsuc n

-- `parse` of the signed type whose greatest number is `max`.
unfoldable pub parse_signed : ℕ → Text → Option ℤ
unfolding unsigned_digits
parse_signed max [] = none
parse_signed max (c ∷ s) =
    if c == b'-'
    then elim (unsigned_digits 10 (max + 1) s) [ none ↦ none | some n ↦ some (negated n) ]
    else elim (if c == b'+' then unsigned_digits 10 max s else unsigned_digits 10 max (c ∷ s)) [
      | none ↦ none
      | some n ↦ some (pos n)
    ]
