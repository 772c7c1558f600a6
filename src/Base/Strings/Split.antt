-- ===== src/Base/Strings/Split.antt =====
-- Texts that are put together of pieces, and cut again.
use rctpower_protocol.Base.{none, ℕ, ◌≡◌, ◌≢◌, refl, sym, ap, ◌∙◌, arith, true, false}
use rctpower_protocol.Base.{not, Bool, ◌&&◌}
use rctpower_protocol.Base.{is_empty, some, List, [], ◌∷◌, ◌++◌, map, ◌==◌}
use rctpower_protocol.Base.{All, All-append, append_assoc}
use rctpower_protocol.Base.Text.{Text}
use rctpower_protocol.Base.Strings.{split, split_inclusive, strip_suffix, strip_line, lines}
use rctpower_protocol.Base.Strings.{longer, trim_end}

-- The byte `c` is not in the text.
abbrev pub Without : ℕ → Text → Type 0
Without c = All (λ d. d ≢ c)

-- A decision of that.
abbrev pub free_of : ℕ → Text → Bool
free_of c [] = true
free_of c (d ∷ s) = not (d == c) && free_of c s

pub free_of-Without : (c : ℕ) (s : Text) → free_of c s ≡ true → Without c s
free_of-Without c [] h = tt
free_of-Without c (d ∷ s) h = (ground arith, free_of-Without c s (ground arith))

-- The pieces with `c` between them.
abbrev pub join : ℕ → List Text → Text
join c [] = []
join c (l ∷ []) = l
join c (l ∷ m ∷ ls) = l ++ (c ∷ join c (m ∷ ls))

-- The lines, each with a line end.
abbrev pub joined_lines : List Text → Text
joined_lines [] = []
joined_lines (l ∷ ls) = l ++ (b'\r' ∷ b'\n' ∷ joined_lines ls)

pub differs : (c d : ℕ) → d ≢ c → (d == c) ≡ false
differs c d h = ground arith

pub is_empty_behind : (s t : Text) (c : ℕ) → is_empty (s ++ (c ∷ t)) ≡ false
is_empty_behind [] t c = refl
is_empty_behind (d ∷ s) t c = refl

split_alone : (c : ℕ) (l : Text) → Without c l → split c l ≡ l ∷ []
unfolding split
split_alone c [] h = refl
split_alone c (d ∷ l) (h, hs) = rw (differs c d h, split) (ap (longer d) (split_alone c l hs))

split_piece : (c : ℕ) (l rest : Text) → Without c l → split c (l ++ (c ∷ rest)) ≡ l ∷ split c rest
unfolding split
split_piece c [] rest h = ground arith
split_piece c (d ∷ l) rest (h, hs) =
    rw (differs c d h, split) (ap (longer d) (split_piece c l rest hs))

split-join_cons :
    (c : ℕ) (l : Text) (ls : List Text)
    → All (Without c) (l ∷ ls)
    → split c (join c (l ∷ ls)) ≡ l ∷ ls
split-join_cons c l [] (h, hs) = split_alone c l h
split-join_cons c l (m ∷ ls) (h, hs) =
    split_piece c l (join c (m ∷ ls)) h ∙ ap (λ ps. l ∷ ps) (split-join_cons c m ls hs)

pub split-join : (c : ℕ) (ls : List Text) → ls ≢ [] → All (Without c) ls → split c (join c ls) ≡ ls
split-join c [] some_pieces h = absurd (some_pieces refl)
split-join c (l ∷ ls) some_pieces h = split-join_cons c l ls h

split_inclusive_piece :
    (c : ℕ) (l rest : Text)
    → Without c l
    → split_inclusive c (l ++ (c ∷ rest)) ≡ (l ++ (c ∷ [])) ∷ split_inclusive c rest
unfolding split_inclusive
split_inclusive_piece c [] rest h = ground arith
split_inclusive_piece c (d ∷ l) rest (h, hs) =
    rw (differs c d h, split_inclusive) (ap (longer d) (split_inclusive_piece c l rest hs))

strip_suffix-snoc : (c : ℕ) (l : Text) → strip_suffix c (l ++ (c ∷ [])) ≡ some l
unfolding strip_suffix
strip_suffix-snoc c [] = ground arith
strip_suffix-snoc c (d ∷ []) = ground arith
strip_suffix-snoc c (d ∷ e ∷ l) = rw (strip_suffix-snoc c (e ∷ l), strip_suffix) refl

pub trim_end_same : (c : ℕ) (l : Text) → Without c l → trim_end c l ≡ l
unfolding trim_end
trim_end_same c [] h = refl
trim_end_same c (d ∷ l) (h, hs) = ground (arith, trim_end_same c l hs)

strip_line_end : (l : Text) → strip_line ((l ++ (b'\r' ∷ [])) ++ (b'\n' ∷ [])) ≡ l
unfolding strip_line
strip_line_end l =
    rw (strip_suffix-snoc b'\n' (l ++ (b'\r' ∷ [])), strip_suffix-snoc b'\r' l, strip_line) refl

lines_piece :
    (l rest : Text) → Without b'\n' l → lines (l ++ (b'\r' ∷ b'\n' ∷ rest)) ≡ l ∷ lines rest
unfolding lines
lines_piece l rest h =
    let line = l ++ (b'\r' ∷ []) in
    let clean : Without b'\n' line =
      All-append (λ d. d ≢ b'\n') l (b'\r' ∷ []) h (omega arith, tt) in
    ap (λ w. map strip_line (split_inclusive b'\n' w))
      (sym (append_assoc l (b'\r' ∷ []) (b'\n' ∷ rest)))
    ∙ ap (map strip_line) (split_inclusive_piece b'\n' line rest clean)
    ∙ ap (λ m. m ∷ lines rest) (strip_line_end l)

pub lines-joined_lines : (ls : List Text) → All (Without b'\n') ls → lines (joined_lines ls) ≡ ls
unfolding lines split_inclusive
lines-joined_lines [] h = refl
lines-joined_lines (l ∷ ls) (h, hs) =
    lines_piece l (joined_lines ls) h ∙ ap (λ ms. l ∷ ms) (lines-joined_lines ls hs)

-- The lines, each with a line feed.
abbrev pub ended_lines : List Text → Text
ended_lines [] = []
ended_lines (l ∷ ls) = l ++ (b'\n' ∷ ended_lines ls)

strip_suffix_absent : (c : ℕ) (l : Text) → Without c l → strip_suffix c l ≡ none
unfolding strip_suffix
strip_suffix_absent c [] h = refl
strip_suffix_absent c (d ∷ []) (h, _) = rw (differs c d h, strip_suffix) refl
strip_suffix_absent c (d ∷ e ∷ l) (h, hs) = rw (strip_suffix_absent c (e ∷ l) hs, strip_suffix) refl

strip_line_feed : (l : Text) → Without b'\r' l → strip_line (l ++ (b'\n' ∷ [])) ≡ l
unfolding strip_line
strip_line_feed l h = rw (strip_suffix-snoc b'\n' l, strip_suffix_absent b'\r' l h, strip_line) refl

pub lines-ended_lines :
    (ls : List Text) → All (Without b'\n') ls → All (Without b'\r') ls → lines (ended_lines ls) ≡ ls
unfolding lines split_inclusive
lines-ended_lines [] h k = refl
lines-ended_lines (l ∷ ls) (h, hs) (k, ks) =
    ap (map strip_line) (split_inclusive_piece b'\n' l (ended_lines ls) h)
    ∙ ap (λ m. m ∷ lines (ended_lines ls)) (strip_line_feed l k)
    ∙ ap (λ ms. l ∷ ms) (lines-ended_lines ls hs ks)
