-- ===== src/Registry/Count.antt =====
-- How `build` of src/registry.rs finds the count in the JSON file.
use rctpower_protocol.Base.{ℕ, ◌^◌, ◌-◌, ◌≤◌, ◌≡◌, ◌≢◌, refl, ap, ◌∙◌, arith}
use rctpower_protocol.Base.{some, none}
use rctpower_protocol.Base.{List, [], ◌∷◌, ◌++◌, All, All-append, get_elem?}
use rctpower_protocol.Base.Bytes.{codes}
use rctpower_protocol.Base.Text.{Text, decimal}
use rctpower_protocol.Base.Strings.{split, trim, trim_left, trim_right, trim_end}
use rctpower_protocol.Base.Strings.{parse_unsigned, digits, unsigned_digits, to_digit}
use rctpower_protocol.Base.Strings.Split.{Without, split-join, trim_end_same}
use rctpower_protocol.Base.Strings.Split.{free_of-Without}
use rctpower_protocol.Base.Strings.Digits.{IsFigure, decimal-IsFigure, parse_unsigned-decimal}
use rctpower_protocol.Registry.Build.{count_of, find_count}
use rctpower_protocol.Registry.Json.{source_line, commit_line, count_line, json_lines, IsCommit}

trim_figures : (s : Text) → All IsFigure s → trim_right s ≡ s
unfolding trim_right
trim_figures [] h = refl
trim_figures (c ∷ s) ((low, _, _, _, _), hs) = ground (arith, trim_figures s hs)

figures-Without_comma : (s : Text) → All IsFigure s → Without b',' s
figures-Without_comma [] h = tt
figures-Without_comma (c ∷ s) ((low, _, _, _, _), hs) = (ground arith, figures-Without_comma s hs)

figures-Without_colon : (s : Text) → All IsFigure s → Without b':' s
figures-Without_colon [] h = tt
figures-Without_colon (c ∷ s) ((_, _, _, _, no_colon), hs) = (no_colon, figures-Without_colon s hs)

trim_left_figures : (s : Text) → All IsFigure s → trim_left s ≡ s
unfolding trim_left
trim_left_figures [] h = refl
trim_left_figures (c ∷ s) ((low, _, _, _, _), hs) = ground arith

-- The number behind the first colon of a line.
count_of_value :
    (l v : Text)
    → get_elem? (split b':' l) 1 ≡ some v
    → count_of l ≡ parse_unsigned 10 (2 ^ 64 - 1) (trim_end b',' (trim v))
unfolding count_of
count_of_value l v e = rw (e, count_of) refl

count_of-count_line : (n : ℕ) → n ≤ 2 ^ 64 - 1 → count_of (count_line n) ≡ some n
unfolding trim trim_left
count_of-count_line n small =
    let figures = decimal-IsFigure n in
    let pieces =
      split-join b':' (codes "  \"count\"" ∷ (b' ' ∷ decimal n) ∷ []) (λ e. cc)
        (
          free_of-Without b':' (codes "  \"count\"") refl,
          (((λ e. omega (arith, e)), figures-Without_colon (decimal n) figures), tt),
        ) in
    let trimmed : trim (b' ' ∷ decimal n) ≡ decimal n =
      ap trim_right (trim_left_figures (decimal n) figures) ∙ trim_figures (decimal n) figures in
    count_of_value (count_line n) (b' ' ∷ decimal n) (ap (λ ps. get_elem? ps 1) pieces)
    ∙ ap (λ t. parse_unsigned 10 (2 ^ 64 - 1) (trim_end b',' t)) trimmed
    ∙ ap (parse_unsigned 10 (2 ^ 64 - 1))
        (trim_end_same b',' (decimal n) (figures-Without_comma (decimal n) figures))
    ∙ parse_unsigned-decimal (2 ^ 64 - 1) n small

-- What begins with a quote is no number.
trim_right_quote : (s : Text) → trim_right (b'"' ∷ s) ≡ b'"' ∷ trim_right s
unfolding trim_right
trim_right_quote s = ground arith

trim_end_quote : (s : Text) → trim_end b',' (b'"' ∷ s) ≡ b'"' ∷ trim_end b',' s
unfolding trim_end
trim_end_quote s = ground arith

parse_unsigned_quote : (max : ℕ) (s : Text) → parse_unsigned 10 max (b'"' ∷ s) ≡ none
unfolding parse_unsigned unsigned_digits digits to_digit
parse_unsigned_quote max s = refl

count_of-commit_line : (commit : Text) → IsCommit commit → count_of (commit_line commit) ≡ none
unfolding trim trim_left
count_of-commit_line commit h =
    let value = commit ++ codes "\"," in
    let clean : Without b':' value =
      All-append (λ d. d ≢ b':') commit (codes "\",") h.no_colon
        (free_of-Without b':' (codes "\",") refl) in
    let pieces =
      split-join b':' (codes "  \"source_commit\"" ∷ (b' ' ∷ b'"' ∷ value) ∷ []) (λ e. cc)
        (
          free_of-Without b':' (codes "  \"source_commit\"") refl,
          (((λ e. omega (arith, e)), ((λ e. omega (arith, e)), clean)), tt),
        ) in
    count_of_value (commit_line commit) (b' ' ∷ b'"' ∷ value) (ap (λ ps. get_elem? ps 1) pieces)
    ∙ ap (λ t. parse_unsigned 10 (2 ^ 64 - 1) (trim_end b',' t)) (trim_right_quote value)
    ∙ ap (parse_unsigned 10 (2 ^ 64 - 1)) (trim_end_quote (trim_right value))
    ∙ parse_unsigned_quote (2 ^ 64 - 1) (trim_end b',' (trim_right value))

source_uncounted : count_of source_line ≡ none
unfolding count_of split trim_right trim_end to_digit
source_uncounted = refl

brace_uncounted : count_of (codes "{") ≡ none
unfolding count_of split
brace_uncounted = refl

find_count_skip :
    (l : Text) (ls : List Text) → count_of l ≡ none → find_count (l ∷ ls) ≡ find_count ls
unfolding find_count
find_count_skip l ls e = rw (e, find_count) refl

find_count_here :
    (l : Text) (ls : List Text) (n : ℕ) → count_of l ≡ some n → find_count (l ∷ ls) ≡ some n
unfolding find_count
find_count_here l ls n e = rw (e, find_count) refl

pub find_count-json_lines :
    (commit : Text) (n : ℕ)
    → IsCommit commit
    → n ≤ 2 ^ 64 - 1
    → find_count (json_lines commit n) ≡ some n
find_count-json_lines commit n h small =
    find_count_skip (codes "{") _ brace_uncounted
    ∙ find_count_skip source_line _ source_uncounted
    ∙ find_count_skip (commit_line commit) _ (count_of-commit_line commit h)
    ∙ find_count_here (count_line n) _ n (count_of-count_line n small)
