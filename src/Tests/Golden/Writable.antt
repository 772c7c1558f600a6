-- ===== src/Tests/Golden/Writable.antt =====
-- The tests in src/writable.rs, as Booleans over the registry and the texts of the floats in them.
use rctpower_protocol.Base.{ℕ, Bool, true, false, not, ◌&&◌, ◌≡◌, refl, List, [], ◌∷◌, ◌==◌}
use rctpower_protocol.Base.{if◌then◌else◌}
use rctpower_protocol.Base.Int.{pos, negsuc}
use rctpower_protocol.Base.Bytes.{codes}
use rctpower_protocol.Base.Text.{Text}
use rctpower_protocol.Error.{ok}
use rctpower_protocol.Types.DataValue.{DataValue, Floats}
use rctpower_protocol.Registry.{ObjectInfo}
use rctpower_protocol.Registry.Build.{Registry, get_by_name}
use rctpower_protocol.Writable.{validate, writable, Rule}
use rctpower_protocol.Tests.Registry.{strategy}

module _ (reg : Registry) (floats : Floats) where
  -- `is_ok` and `is_err` of `validate`.
  unfoldable is_valid : Text → DataValue → Bool
  unfolding validate
  is_valid name value = elim (validate reg floats name value) [ ok u ↦ true | _ ↦ false ]

  unfoldable happy_paths : Bool
  unfolding is_valid
  happy_paths =
      is_valid (codes "power_mng.soc_strategy") (DataValue.u8 4)
      && is_valid (codes "power_mng.soc_target_set") (DataValue.f32 0x3f0ccccd)
      && is_valid (codes "power_mng.battery_power_extern") (DataValue.i32 (negsuc 5999))
      && is_valid (codes "p_rec_lim[1]") (DataValue.f32 0x442f0000)
      && is_valid (codes "power_mng.use_grid_power_enable") (DataValue.bool true)
      && is_valid (codes "buf_v_control.power_reduction") (DataValue.f32 0x3dfbe76d)

  unfoldable out_of_range : Bool
  unfolding is_valid
  out_of_range =
      not (is_valid (codes "p_rec_lim[1]") (DataValue.f32 0x45dac000))
      && not (is_valid (codes "power_mng.soc_strategy") (DataValue.u8 6))
      && not (is_valid (codes "power_mng.soc_min") (DataValue.f32 0x3d23d70a))

  unfoldable decimals_enforced : Bool
  unfolding is_valid
  decimals_enforced =
      not (is_valid (codes "buf_v_control.power_reduction") (DataValue.f32 0x3dfcb924))
      && not (is_valid (codes "power_mng.soc_target_set") (DataValue.f32 0x3f0e147b))

  unfoldable unknown_param_rejected : Bool
  unfolding is_valid
  unknown_param_rejected = not (is_valid (codes "battery.soc") (DataValue.f32 0x3f000000))

-- A registry that has every parameter with a rule, and the texts of the floats above.
abbrev ruled : List Rule → List (Text × ObjectInfo)
ruled [] = []
ruled (r ∷ rs) = (r.name, record strategy { name = r.name }) ∷ ruled rs

abbrev registry : Registry
registry = record { by_name = ruled writable; by_id = []; all = []; source_commit = []; count = 0 }

abbrev shown : ℕ → Text
shown f =
    if f == 0x3f0ccccd
    then codes "0.55"
    else if f == 0x442f0000
    then codes "700"
    else if f == 0x3dfbe76d
    then codes "0.123"
    else if f == 0x45dac000
    then codes "7000"
    else if f == 0x3d23d70a
    then codes "0.04"
    else if f == 0x3dfcb924
    then codes "0.1234"
    else if f == 0x3f0e147b
    then codes "0.555"
    else codes "0.5"

abbrev floats : Floats
floats = record { to_i64 = λ f. pos 0; of_i64 = λ i. 0; shown = shown }

writable_passes :
    (happy_paths registry floats ≡ true)
    × (out_of_range registry floats ≡ true)
    × (decimals_enforced registry floats ≡ true)
    × (unknown_param_rejected registry floats ≡ true)
unfolding happy_paths out_of_range decimals_enforced unknown_param_rejected get_by_name
writable_passes = (refl, refl, refl, refl)
