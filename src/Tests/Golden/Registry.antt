-- ===== src/Tests/Golden/Registry.antt =====
-- The tests in src/registry.rs, as Booleans over the registry, run on the lines of
-- src/data/registry.csv that they are about.
use rctpower_protocol.Base.{ℕ, Bool, true, false, ◌&&◌, ◌≡◌, ◌≤◌, refl, arith, none}
use rctpower_protocol.Base.{some, [], ◌∷◌, ◌==◌, leb, length}
use rctpower_protocol.Base.Bytes.{codes}
use rctpower_protocol.Base.Text.{Text, text_eq, decimal}
use rctpower_protocol.Base.Strings.{split_inclusive, strip_line, strip_suffix, to_digit}
use rctpower_protocol.Base.Strings.Split.{joined_lines}
use rctpower_protocol.Error.{ok}
use rctpower_protocol.Types.ObjectGroup
use rctpower_protocol.Types.DataType
use rctpower_protocol.Types.DataType.{DataType, name}
use rctpower_protocol.Registry.{ObjectInfo}
use rctpower_protocol.Registry.Build.{Registry, build, get_by_name, get_by_id, enum_str}

-- `assert_eq!` of two data types, by their names.
unfoldable is_type : DataType → DataType → Bool
unfolding text_eq name
is_type s t = text_eq (name s) (name t)

module _ (r : Registry) where
  unfoldable golden_samples : Bool
  unfolding get_by_name get_by_id is_type text_eq
  golden_samples =
      elim (get_by_name r (codes "battery.soc")) [
        | some soc ↦ soc.object_id == 0x959930bf && is_type soc.request_data_type DataType.float
        | none ↦ false
      ]
      && elim (get_by_name r (codes "power_mng.soc_strategy")) [
        | some strat ↦
            strat.object_id == 0xf168b748 && is_type strat.request_data_type DataType.enum
        | none ↦ false
      ]
      && elim (get_by_name r (codes "p_rec_lim[1]")) [
        | some p ↦ p.object_id == 0x54829753 && text_eq p.unit (codes "W")
        | none ↦ false
      ]
      && elim (get_by_id r 0x959930bf) [
        | some soc ↦ text_eq soc.name (codes "battery.soc")
        | none ↦ false
      ]

  unfoldable count_matches_meta : Bool
  count_matches_meta = length r.all == r.count && leb 900 r.count

  -- The label that `enum_str` gives is this one.
  unfoldable labelled : ObjectInfo → ℕ → Text → Bool
  unfolding enum_str text_eq
  labelled o value label = elim (enum_str o value) [ ok (some l) ↦ text_eq l label | _ ↦ false ]

  unfoldable soc_strategy_enum_map : Bool
  unfolding get_by_name labelled
  soc_strategy_enum_map = elim (get_by_name r (codes "power_mng.soc_strategy")) [
    | some strat ↦ labelled strat 4 (codes "Internal") && labelled strat 2 (codes "External")
    | none ↦ false
  ]

-- A registry with a count of 900 or more that is the number of its objects passes the second test.
count_passes : (r : Registry) → r.count ≡ length r.all → 900 ≤ r.count → count_matches_meta r ≡ true
unfolding count_matches_meta
count_passes r same enough = ground arith

abbrev csv : Text
csv = joined_lines (
    codes "group;object_id;index;name;req_type;resp_type;unit;description;enum_map"
    ∷ codes "P_REC;0x54829753;294;p_rec_lim[1];FLOAT;FLOAT;W;Max. battery to grid power;"
    ∷ codes "BATTERY;0x959930BF;545;battery.soc;FLOAT;FLOAT;%;SOC (State of charge);"
    ∷ codes
        "POWER_MNG;0xF168B748;835;power_mng.soc_strategy;ENUM;ENUM;;SOC target selection;0=SOC target = SOC|1=Constant|2=External|3=Middle battery voltage|4=Internal|5=Schedule"
    ∷ [])

-- A test of what `build` gives.
unfoldable tested : (Registry → Bool) → Bool
unfolding build
tested test = elim (build csv []) [ ok r ↦ test r | _ ↦ false ]

registry_passes : (tested golden_samples ≡ true) × (tested soc_strategy_enum_map ≡ true)
unfolding tested golden_samples soc_strategy_enum_map split_inclusive strip_line strip_suffix
    text_eq to_digit ObjectGroup.from_string DataType.from_str_name ObjectGroup.from_u8 decimal
registry_passes = (refl, refl)
