-- ===== src/Registry/Meta.antt =====
-- What `build` of src/registry.rs reads from the JSON file.
use rctpower_protocol.Base.{ℕ, ◌^◌, ◌-◌, ◌≤◌, ◌≡◌, refl, sym, ap, ◌∙◌}
use rctpower_protocol.Base.{some}
use rctpower_protocol.Base.{List, [], ◌∷◌, get_elem?, inl, inr}
use rctpower_protocol.Base.Bytes.{codes}
use rctpower_protocol.Base.Text.{Text}
use rctpower_protocol.Base.Strings.{split, lines, contains}
use rctpower_protocol.Base.Strings.{starts_with}
use rctpower_protocol.Base.Strings.Split.{split-join}
use rctpower_protocol.Base.Strings.Split.{free_of-Without}
use rctpower_protocol.Error.{ok-injective, ok, Result-cases}
use rctpower_protocol.Registry.Build.{Registry, build, build_lines, find_count}
use rctpower_protocol.Registry.Build.{find_commit, unwrap_or, entries}
use rctpower_protocol.Registry.Json.{json_lines, json, IsCommit, lines-json}
use rctpower_protocol.Registry.Count.{find_count-json_lines}

find_commit-json_lines :
    (commit : Text) (n : ℕ) → IsCommit commit → find_commit (json_lines commit n) ≡ some commit
unfolding find_commit contains starts_with
find_commit-json_lines commit n h =
    ap (λ pieces. get_elem? pieces 3)
      (split-join b'"' (codes "  " ∷ codes "source_commit" ∷ codes ": " ∷ commit ∷ codes "," ∷ [])
        (λ e. cc)
        (
          free_of-Without b'"' (codes "  ") refl,
          (
            free_of-Without b'"' (codes "source_commit") refl,
            (
              free_of-Without b'"' (codes ": ") refl,
              (h.no_quote, (free_of-Without b'"' (codes ",") refl, tt)),
            ),
          ),
        ))

build_lines_read :
    (ls meta : List Text) (reg : Registry)
    → build_lines ls meta ≡ ok reg
    → (reg.source_commit ≡ unwrap_or (find_commit meta) (codes "unknown"))
      × (reg.count ≡ unwrap_or (find_count meta) 0)
unfolding build_lines
build_lines_read [] meta reg e = cc
build_lines_read (header ∷ rest) meta reg e =
    elim (Result-cases (entries (split b';' header) rest)) [
      | inl (os, held) ↦
          let same = ok-injective _ reg (rw held at e) in
          (sym (ap (λ r. r.source_commit) same), sym (ap (λ r. r.count) same))
      | inr (inl (x, held)) ↦ absurd (cc (rw held at e))
      | inr (inr held) ↦ absurd (cc (rw held at e))
    ]

-- The JSON file is written as tools/generate_registry.py writes it, for a commit of printable
-- ASCII without quote, colon and backslash and for a count below 2 ^ 64, and `build` has given a
-- registry of it and of any table. Then the registry holds this commit and this count.
pub build-json :
    (csv commit : Text) (n : ℕ) (reg : Registry)
    → IsCommit commit
    → n ≤ 2 ^ 64 - 1
    → build csv (json commit n) ≡ ok reg
    → (reg.source_commit ≡ commit) × (reg.count ≡ n)
unfolding build
build-json csv commit n reg h small built =
    let parsed = lines-json commit n h in
    let (same_commit, same_count) =
      build_lines_read (lines csv) (lines (json commit n)) reg built in
    (
      same_commit
          ∙ ap (λ ls. unwrap_or (find_commit ls) (codes "unknown")) parsed
          ∙ ap (λ c. unwrap_or c (codes "unknown")) (find_commit-json_lines commit n h),
      same_count
          ∙ ap (λ ls. unwrap_or (find_count ls) 0) parsed
          ∙ ap (λ c. unwrap_or c 0) (find_count-json_lines commit n h small),
    )
