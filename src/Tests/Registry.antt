-- ===== src/Tests/Registry.antt =====
-- The theorems on src/registry.rs at concrete inputs.
use rctpower_protocol.Base.{ℕ, ◌≡◌, ◌↔◌, refl, arith, some, List, [], ◌∷◌}
use rctpower_protocol.Base.Int.{pos}
use rctpower_protocol.Base.Bytes.{codes}
use rctpower_protocol.Base.Text.{Text, text_eq, decimal}
use rctpower_protocol.Base.Strings.Split.{joined_lines, free_of-Without}
use rctpower_protocol.Base.Strings.{split_inclusive, strip_line, strip_suffix, to_digit}
use rctpower_protocol.Error.{ok, ◌>>=◌}
use rctpower_protocol.Types.ObjectGroup
use rctpower_protocol.Types.DataType
use rctpower_protocol.Types.ObjectGroup.{ObjectGroup}
use rctpower_protocol.Types.DataType.{DataType}
use rctpower_protocol.Registry.{ObjectInfo}
use rctpower_protocol.Registry.Build.{Registry, build, get_by_name, enum_str}
use rctpower_protocol.Registry.Lookup.{IsLast, get_by_name-build_iff}
use rctpower_protocol.Registry.Table.{table, csv_field, build-table, IsEntry, clean-IsCell}
use rctpower_protocol.Registry.Json.{json, IsCommit}
use rctpower_protocol.Registry.Generated.{build-generated}
use rctpower_protocol.Base.{length}
use rctpower_protocol.Registry.Enum.{enum_str-enum_map}

abbrev pub strategy : ObjectInfo
strategy = record {
  group = ObjectGroup.power_mng;
  object_id = 0xf168b748;
  index = pos 835;
  name = codes "power_mng.soc_strategy";
  request_data_type = DataType.enum;
  response_data_type = DataType.enum;
  unit = [];
  description = codes "SOC target selection";
  enum_map_raw = codes "0=SOC target = SOC|2=External|4=Internal";
}

-- Two objects of the table have this id.
abbrev schedule_3 : ObjectInfo
schedule_3 = record {
  group = ObjectGroup.power_mng;
  object_id = 0x40b07ca4;
  index = pos 968;
  name = codes "power_mng.schedule[3]??";
  request_data_type = DataType.string;
  response_data_type = DataType.string;
  unit = [];
  description = [];
  enum_map_raw = [];
}

abbrev schedule_6 : ObjectInfo
schedule_6 = record schedule_3 { index = pos 221; name = codes "power_mng.schedule[6]" }

abbrev csv : Text
csv = joined_lines (
    codes "group;object_id;index;name;req_type;resp_type;unit;description;enum_map"
    ∷ codes "POWER_MNG;0x40B07CA4;968;power_mng.schedule[3]??;STRING;STRING;;;"
    ∷ codes "POWER_MNG;0x40B07CA4;221;power_mng.schedule[6];STRING;STRING;;;"
    ∷ codes
        "POWER_MNG;0xF168B748;835;power_mng.soc_strategy;ENUM;ENUM;;SOC target selection;0=SOC target = SOC|2=External|4=Internal"
    ∷ [])

abbrev meta : Text
meta = joined_lines (
    codes "{"
    ∷ codes "  \"source\": \"python-rctclient registry.py\","
    ∷ codes "  \"source_commit\": \"636aabf\","
    ∷ codes "  \"count\": 900"
    ∷ codes "}"
    ∷ [])

abbrev pub registry : Registry
registry = record {
  by_name =
      (codes "power_mng.soc_strategy", strategy)
      ∷ (codes "power_mng.schedule[6]", schedule_6)
      ∷ (codes "power_mng.schedule[3]??", schedule_3)
      ∷ [];
  by_id = (0xf168b748, strategy) ∷ (0x40b07ca4, schedule_6) ∷ (0x40b07ca4, schedule_3) ∷ [];
  all = schedule_3 ∷ schedule_6 ∷ strategy ∷ [];
  source_commit = codes "636aabf";
  count = 900;
}

built : build csv meta ≡ ok registry
unfolding build split_inclusive strip_line strip_suffix text_eq to_digit ObjectGroup.from_string
    DataType.from_str_name ObjectGroup.from_u8
built = refl

get_by_name-build_iff_example :
    (get_by_name registry (codes "power_mng.soc_strategy") ≡ some strategy)
    ↔ IsLast (λ p. p.name) (codes "power_mng.soc_strategy") registry.all strategy
get_by_name-build_iff_example =
    get_by_name-build_iff csv meta registry (codes "power_mng.soc_strategy") strategy built

revision-IsCommit : IsCommit (codes "636aabf")
revision-IsCommit = record {
  no_quote = free_of-Without b'"' (codes "636aabf") refl;
  no_colon = free_of-Without b':' (codes "636aabf") refl;
  no_backslash = free_of-Without b'\\' (codes "636aabf") refl;
  printable = omega arith;
}

schedule_6-IsEntry : IsEntry schedule_6
schedule_6-IsEntry = record {
  id_small = omega arith;
  index_small = omega arith;
  name_cell = clean-IsCell (codes "power_mng.schedule[6]") refl;
  unit_cell = clean-IsCell [] refl;
  description_cell = clean-IsCell [] refl;
  enum_cell = clean-IsCell [] refl;
}

-- A double quote in a text is doubled, and the text is quoted.
quoted_field : csv_field (codes "a\"b") ≡ codes "\"a\"\"b\""
quoted_field = refl

build-table_example :
    (do reg ← build (table (schedule_6 ∷ [])) meta; ok reg.all) ≡ ok (schedule_6 ∷ [])
build-table_example = build-table (schedule_6 ∷ []) meta (schedule_6-IsEntry, tt)

abbrev labels : List (ℕ × Text)
labels = (0, codes "SOC target = SOC") ∷ (2, codes "External") ∷ (4, codes "Internal") ∷ []

enum_str-enum_map_example : enum_str strategy 4 ≡ ok (some (codes "Internal"))
unfolding decimal
enum_str-enum_map_example =
    enum_str-enum_map strategy labels 4 refl
      (
        free_of-Without b'|' (codes "SOC target = SOC") refl,
        (
          free_of-Without b'|' (codes "External") refl,
          (free_of-Without b'|' (codes "Internal") refl, tt),
        ),
      )
      refl

build-generated_example :
    (reg : Registry) × (build (table (schedule_6 ∷ [])) (json (codes "636aabf") 1) ≡ ok reg)
    × (reg.all ≡ schedule_6 ∷ [])
    × (reg.source_commit ≡ codes "636aabf")
    × (reg.count ≡ length reg.all)
build-generated_example =
    build-generated (schedule_6 ∷ []) (codes "636aabf") (schedule_6-IsEntry, tt) revision-IsCommit
      (omega arith)
