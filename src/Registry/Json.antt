-- ===== src/Registry/Json.antt =====
-- The JSON file that tools/generate_registry.py writes, and its lines.
use rctpower_protocol.Base.{ℕ, ◌≤◌, ◌≡◌, ◌≢◌, refl, arith, true}
use rctpower_protocol.Base.{List, [], ◌∷◌, ◌++◌, All, All-append}
use rctpower_protocol.Base.Bytes.{codes}
use rctpower_protocol.Base.Text.{Text, decimal}
use rctpower_protocol.Base.Strings.{lines}
use rctpower_protocol.Base.Strings.Split.{Without, join, free_of}
use rctpower_protocol.Base.Strings.Split.{free_of-Without, ended_lines, lines-ended_lines}
use rctpower_protocol.Base.Strings.Digits.{IsFigure, decimal-IsFigure}

-- The lines of the file, for a source, a commit and a count.
abbrev pub source_line : Text
source_line = codes "  \"source\": \"python-rctclient registry.py\","

abbrev pub commit_line : Text → Text
commit_line commit =
    join b'"' (codes "  " ∷ codes "source_commit" ∷ codes ": " ∷ commit ∷ codes "," ∷ [])

abbrev pub count_line : ℕ → Text
count_line n = join b':' (codes "  \"count\"" ∷ (b' ' ∷ decimal n) ∷ [])

abbrev pub json_lines : Text → ℕ → List Text
json_lines commit n = codes "{" ∷ source_line ∷ commit_line commit ∷ count_line n ∷ codes "}" ∷ []

-- A commit that `json.dumps` writes as it is, and that has no colon: printable ASCII without
-- quote and backslash.
pub record IsCommit (commit : Text) : Type 0 where
  pub no_quote : Without b'"' commit
  pub no_colon : Without b':' commit
  pub no_backslash : Without b'\\' commit
  pub printable : All (λ c. (b' ' ≤ c) × (c ≤ b'~')) commit

-- The file.
abbrev pub json : Text → ℕ → Text
json commit n = ended_lines (json_lines commit n)

-- What stands in the file around the commit and the count.
abbrev frame : List Text
frame =
    codes "{"
    ∷ source_line
    ∷ codes "  \"source_commit\": \""
    ∷ codes "\","
    ∷ codes "  \"count\": "
    ∷ codes "}"
    ∷ []

-- A byte that is neither there nor in the commit nor in the count is in no line.
json_lines-Without :
    (c : ℕ) (commit : Text) (n : ℕ)
    → All (λ s. free_of c s ≡ true) frame
    → Without c commit
    → Without c (decimal n)
    → All (Without c) (json_lines commit n)
json_lines-Without c commit n (opening, (source, (before, (after, (key, (closing, _)))))) hc hn =
    let clean = free_of-Without c in
    let differs_all = All-append (λ d. d ≢ c) in
    let committed =
      differs_all (codes "  \"source_commit\": \"") (commit ++ codes "\",")
        (clean (codes "  \"source_commit\": \"") before)
        (differs_all commit (codes "\",") hc (clean (codes "\",") after)) in
    (
      clean (codes "{") opening,
      (
        clean source_line source,
        (
          committed,
          (
            differs_all (codes "  \"count\": ") (decimal n) (clean (codes "  \"count\": ") key) hn,
            (clean (codes "}") closing, tt),
          ),
        ),
      ),
    )

figures-Without_end : (s : Text) → All IsFigure s → Without b'\n' s × Without b'\r' s
figures-Without_end [] h = (tt, tt)
figures-Without_end (c ∷ s) ((low, _, _, _, _), hs) =
    let (no_newline, no_return) = figures-Without_end s hs in
    ((ground arith, no_newline), (ground arith, no_return))

printable-Without_end :
    (s : Text) → All (λ c. (b' ' ≤ c) × (c ≤ b'~')) s → Without b'\n' s × Without b'\r' s
printable-Without_end [] h = (tt, tt)
printable-Without_end (c ∷ s) ((low, _), hs) =
    let (no_newline, no_return) = printable-Without_end s hs in
    ((omega (arith, low), no_newline), (omega (arith, low), no_return))

pub lines-json :
    (commit : Text) (n : ℕ) → IsCommit commit → lines (json commit n) ≡ json_lines commit n
lines-json commit n h =
    let (no_newline, no_return) = figures-Without_end (decimal n) (decimal-IsFigure n) in
    let (commit_newline, commit_return) = printable-Without_end commit h.printable in
    lines-ended_lines (json_lines commit n)
      (json_lines-Without b'\n' commit n (assumption refl) commit_newline no_newline)
      (json_lines-Without b'\r' commit n (assumption refl) commit_return no_return)
