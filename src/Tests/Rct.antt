-- ===== src/Tests/Rct.antt =====
-- The theorems on examples/rct.rs at concrete inputs.
use rctpower_protocol.Base.{ℕ, ◌≡◌, refl, ap, arith, true, none, some, List, [], ◌∷◌}
use rctpower_protocol.Base.Int.{pos}
use rctpower_protocol.Base.{flatten}
use rctpower_protocol.Error.{ok}
use rctpower_protocol.Types.Command.{Command, standard, is_long}
use rctpower_protocol.Types.DataType.{DataType}
use rctpower_protocol.Types.DataValue.{DataValue, to_string}
use rctpower_protocol.Codec.Encode.{encode_for}
use rctpower_protocol.Codec.Decode.{decode_value}
use rctpower_protocol.Frame.Send.{make_frame}
use rctpower_protocol.Client.Network.{Network}
use rctpower_protocol.Client.Reads.{IsFrame}
use rctpower_protocol.Client.Blocking.{connection}
use rctpower_protocol.Client.Blocking.Answer.{Answers}
use rctpower_protocol.Writable.Double.{le_int}
use rctpower_protocol.Rct.{success, set}
use rctpower_protocol.Rct.Safety.{IsGuarded, set-IsGuarded, set-answer}
use rctpower_protocol.Base.{get_elem?}
use rctpower_protocol.Base.Bytes.{codes}
use rctpower_protocol.Rct.Main.{Cmd, ran, main, listing}
use rctpower_protocol.Rct.Main.Listed.{IsAllowed, main-IsAllowed}
use rctpower_protocol.Tests.Registry.{strategy, registry}
use rctpower_protocol.Tests.Client.{no_floats, steady}
use rctpower_protocol.Tests.Writable.{strategy_rule, strategy_ruled, strategy_known, zero_bound}
use rctpower_protocol.Tests.Writable.{five_bound, parse_nothing}

-- The WRITE of the strategy 4, and an answer with it.
abbrev asking : List ℕ
asking = 0x2b ∷ 0x02 ∷ 0x05 ∷ 0xf1 ∷ 0x68 ∷ 0xb7 ∷ 0x48 ∷ 0x04 ∷ 0xd0 ∷ 0xe6 ∷ []

abbrev answer : List ℕ
answer =
    0x2b ∷ 0x05 ∷ 0x08 ∷ 0xf1 ∷ 0x68 ∷ 0xb7 ∷ 0x48 ∷ 0x00 ∷ 0x00 ∷ 0x00 ∷ 0x04 ∷ 0x40 ∷ 0x73 ∷ []

abbrev inverter : Network
inverter n = steady answer

stored : encode_for no_floats DataType.enum (DataValue.u8 4) ≡ ok (4 ∷ [])
unfolding encode_for
stored = refl

asked : make_frame Command.write 0xf168b748 (4 ∷ []) 0 standard ≡ ok asking
unfolding make_frame
asked = refl

answered : make_frame Command.response 0xf168b748 (0 ∷ 0 ∷ 0 ∷ 4 ∷ []) 0 standard ≡ ok answer
unfolding make_frame
answered = refl

decoded : decode_value DataType.enum (0 ∷ 0 ∷ 0 ∷ 4 ∷ []) ≡ ok (DataValue.u32 4)
unfolding decode_value
decoded = refl

answer-IsFrame : IsFrame Command.response (0 ∷ 0 ∷ 0 ∷ 4 ∷ []) 0xf168b748 [] answer
unfolding is_long
answer-IsFrame = record {
  clean = tt;
  sendable = tt;
  fits = omega arith;
  small = omega arith;
  address = 0;
  built = answered;
}

inverter-Answers : Answers (inverter 0) none 5 asking answer
unfolding connection flatten
inverter-Answers = record {
  connected = refl;
  read_timeout_set = refl;
  write_timeout_set = refl;
  written = refl;
  answered = record {
    chunks = answer ∷ [];
    more = [];
    some_bytes = ((λ e. cc), tt);
    whole = refl;
    events = refl;
  };
}

set_4 :
    set registry no_floats parse_nothing inverter 3 strategy.name
      (to_string no_floats (DataValue.u8 4))
      true
    ≡ (some (record { conn = some 5; turn = 1 }), success (DataValue.u8 4))
unfolding le_int
set_4 =
    set-answer registry no_floats parse_nothing inverter 3 strategy.name strategy_rule strategy
      (DataValue.u8 4) (pos 0) (pos 5) (pos 4) 5 (4 ∷ []) asking [] [] answer Command.response
      (0 ∷ 0 ∷ 0 ∷ 4 ∷ []) 0xf168b748 (DataValue.u32 4) strategy_ruled strategy_known (omega arith)
      refl zero_bound five_bound (omega arith) (omega arith) (omega arith) refl stored asked
      answer-IsFrame inverter-Answers (λ e. cc) decoded

set-answer_example :
    set registry no_floats parse_nothing inverter 3 strategy.name
      (to_string no_floats (DataValue.u8 4))
      true
    ≡ (some (record { conn = some 5; turn = 1 }), success (DataValue.u8 4))
unfolding le_int
set-answer_example =
    set-answer registry no_floats parse_nothing inverter 3 strategy.name strategy_rule strategy
      (DataValue.u8 4) (pos 0) (pos 5) (pos 4) 5 (4 ∷ []) asking [] [] answer Command.response
      (0 ∷ 0 ∷ 0 ∷ 4 ∷ []) 0xf168b748 (DataValue.u32 4) strategy_ruled strategy_known (omega arith)
      refl zero_bound five_bound (omega arith) (omega arith) (omega arith) refl stored asked
      answer-IsFrame inverter-Answers (λ e. cc) decoded

set-IsGuarded_example :
    IsGuarded registry no_floats parse_nothing inverter 3 strategy.name
      (to_string no_floats (DataValue.u8 4))
      true
      (record { conn = some 5; turn = 1 })
set-IsGuarded_example =
    set-IsGuarded registry no_floats parse_nothing inverter 3 strategy.name
      (to_string no_floats (DataValue.u8 4)) true (record { conn = some 5; turn = 1 })
      (ap (λ p. p.0) set_4)

set_by_main :
    main registry no_floats parse_nothing
      (λ f. codes "1")
      (λ host. inverter)
      (Cmd.set strategy.name (to_string no_floats (DataValue.u8 4)) (codes "inverter") true)
    ≡ ran (some (record { conn = some 5; turn = 1 })) (success (DataValue.u8 4))
unfolding main
set_by_main = ap (λ p. ran p.0 p.1) set_4

main-IsAllowed_example :
    IsAllowed
      (λ f. codes "1")
      (Cmd.set strategy.name (to_string no_floats (DataValue.u8 4)) (codes "inverter") true)
main-IsAllowed_example =
    main-IsAllowed registry no_floats parse_nothing (λ f. codes "1") (λ host. inverter)
      (Cmd.set strategy.name (to_string no_floats (DataValue.u8 4)) (codes "inverter") true)
      (record { conn = some 5; turn = 1 }) (success (DataValue.u8 4)) set_by_main

-- The second line of the listing, with the same text for all bounds.
listed_second :
    get_elem? (listing (λ f. codes "1")) 1
    ≡ some (codes "power_mng.soc_strategy                   1..1  0")
unfolding listing
listed_second = refl
