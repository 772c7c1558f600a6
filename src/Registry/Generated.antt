-- ===== src/Registry/Generated.antt =====
-- The two files of tools/generate_registry.py together, read by `build` of src/registry.rs.
use rctpower_protocol.Base.{◌-◌, ◌^◌, ◌≤◌, ◌≡◌, sym, ap, ◌∙◌, List, All}
use rctpower_protocol.Base.{length, inl, inr}
use rctpower_protocol.Base.Text.{Text}
use rctpower_protocol.Error.{ok, Result-cases, ok-injective}
use rctpower_protocol.Registry.{ObjectInfo}
use rctpower_protocol.Registry.Build.{Registry, build}
use rctpower_protocol.Registry.Table.{table, IsEntry, build-table}
use rctpower_protocol.Registry.Json.{json, IsCommit}
use rctpower_protocol.Registry.Meta.{build-json}

-- The generator writes a table of objects, whose ids are u32 and whose indices are i32, and whose
-- texts have no semicolon, no line end and no double quote in them, and a JSON file with their
-- count, which is below 2 ^ 64, and a commit of printable ASCII without quote, colon and
-- backslash. Then `build` gives a registry with
-- these objects in their order, this commit, and a count that is the number of its objects.
pub build-generated :
    (objects : List ObjectInfo) (commit : Text)
    → All IsEntry objects
    → IsCommit commit
    → length objects ≤ 2 ^ 64 - 1
    → (reg : Registry) × (build (table objects) (json commit (length objects)) ≡ ok reg)
      × (reg.all ≡ objects)
      × (reg.source_commit ≡ commit)
      × (reg.count ≡ length reg.all)
build-generated objects commit entries h small =
    let files = build-table objects (json commit (length objects)) entries in
    elim (Result-cases (build (table objects) (json commit (length objects)))) [
      | inl (reg, built) ↦
          let same : reg.all ≡ objects = ok-injective reg.all objects (rw built at files) in
          let (same_commit, same_count) =
            build-json (table objects) commit (length objects) reg h small built in
          (reg, built, same, same_commit, same_count ∙ ap length (sym same))
      | inr (inl (x, failed)) ↦ absurd (cc (rw failed at files))
      | inr (inr failed) ↦ absurd (cc (rw failed at files))
    ]
