-- ===== src/Tests/Writable.antt =====
-- The theorems on src/writable.rs at concrete inputs.
use rctpower_protocol.Base.{ℕ, ◌≡◌, refl, arith, true, false, Option, none, some}
use rctpower_protocol.Base.Int.{pos}
use rctpower_protocol.Base.Bytes.{codes}
use rctpower_protocol.Base.Text.{Text, text_eq, decimal}
use rctpower_protocol.Error.{RctError, ok, err}
use rctpower_protocol.Types.DataValue.{DataValue, to_string}
use rctpower_protocol.Registry.Build.{get_by_name}
use rctpower_protocol.Writable.{Rule, rule_for, too_precise, validate, parse_value}
use rctpower_protocol.Writable.Double.{of_int, of_f32, le, le_int, is_nan}
use rctpower_protocol.Writable.Value.{f64_units, f32_units}
use rctpower_protocol.Writable.Real.{validate-f32}
use rctpower_protocol.Writable.Range.{validate-as_int}
use rctpower_protocol.Writable.Parsing.{parse_value-to_string, parse_value-wraps}
use rctpower_protocol.Tests.Registry.{strategy, registry}
use rctpower_protocol.Tests.Client.{no_floats}

-- The rule of power_mng.soc_strategy: from 0 to 5.
abbrev pub strategy_rule : Rule
strategy_rule = record {
  name = codes "power_mng.soc_strategy";
  min = 0;
  max = 0x4014000000000000;
  decimals = 0;
}

pub strategy_ruled : rule_for strategy.name ≡ some strategy_rule
unfolding rule_for
strategy_ruled = refl

pub strategy_known : get_by_name registry strategy.name ≡ some strategy
unfolding get_by_name text_eq
strategy_known = refl

pub zero_bound : strategy_rule.min ≡ of_int (pos 0)
unfolding of_int
zero_bound = refl

pub five_bound : strategy_rule.max ≡ of_int (pos 5)
unfolding of_int
five_bound = refl

zero_number : is_nan strategy_rule.min ≡ false
unfolding is_nan
zero_number = refl

-- 0.75 as f32 is 0.75 as f64, and lies between 0.05 and 1.0.
widened_075 : of_f32 0x3f400000 ≡ 0x3fe8000000000000
unfolding of_f32
widened_075 = refl

ordered_075 : le 0x3fa999999999999a 0x3fe8000000000000 ≡ true
unfolding le
ordered_075 = refl

validate-as_int_example :
    validate registry no_floats strategy.name (DataValue.u8 6)
    ≡ err (RctError.value_out_of_range strategy.name (of_int (pos 6)) 0 0x4014000000000000)
unfolding le_int
validate-as_int_example =
    validate-as_int registry no_floats strategy.name strategy_rule strategy (DataValue.u8 6) (pos 0)
      (pos 5) (pos 6) strategy_ruled strategy_known zero_bound five_bound refl (omega arith)
      (omega arith) (omega arith)

-- 4.0 as f32.
validate-f32_example : validate registry no_floats strategy.name (DataValue.f32 0x40800000) ≡ ok tt
unfolding le_int f64_units f32_units too_precise to_string
validate-f32_example =
    validate-f32 registry no_floats strategy.name strategy_rule strategy 0x40800000 strategy_ruled
      strategy_known zero_number (omega arith)

-- No float is parsed here.
abbrev pub parse_nothing : Text → Option ℕ
parse_nothing s = none

parse_value-to_string_example :
    parse_value registry no_floats parse_nothing strategy.name
      (to_string no_floats (DataValue.u8 4))
    ≡ ok (DataValue.u8 4)
parse_value-to_string_example =
    parse_value-to_string registry no_floats parse_nothing strategy.name strategy_rule strategy
      (DataValue.u8 4) strategy_ruled strategy_known (omega arith)

parse_value-wraps_example :
    parse_value registry no_floats parse_nothing strategy.name (decimal 260)
    ≡ parse_value registry no_floats parse_nothing strategy.name (decimal 4)
parse_value-wraps_example =
    parse_value-wraps registry no_floats parse_nothing strategy.name strategy_rule strategy 260 4
      strategy_ruled strategy_known refl (omega arith) (omega arith) refl
