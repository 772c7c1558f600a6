-- ===== src/Tests/Golden/Pooled.antt =====
-- The tests in src/async_client.rs, as Booleans, against the simulator.
use rctpower_protocol.Base.{Bool, true, false, ◌&&◌, ◌≡◌, refl, none, some, []}
use rctpower_protocol.Base.{◌==◌, if◌then◌else◌}
use rctpower_protocol.Base.Int.{pos}
use rctpower_protocol.Base.Bytes.{codes}
use rctpower_protocol.Error.{Result, ok}
use rctpower_protocol.Types.ObjectGroup.{ObjectGroup}
use rctpower_protocol.Types.DataType.{DataType}
use rctpower_protocol.Types.DataValue.{DataValue, Floats, value_eq}
use rctpower_protocol.Registry.{ObjectInfo}
use rctpower_protocol.Client.Network.{Network}
use rctpower_protocol.Types.Command.{byte, from_byte, is_plant_byte, is_long}
use rctpower_protocol.Codec.Crc.{crc16}
use rctpower_protocol.Codec.Encode.{encode_for}
use rctpower_protocol.Codec.Decode.{decode_value}
use rctpower_protocol.Frame.Send.{make_frame}
use rctpower_protocol.Frame.Receive.{consume, consume_loop, step, step_inside}
use rctpower_protocol.Frame.Receive.{accept, command_byte, check_header, parse_header, check_end}
use rctpower_protocol.Frame.Receive.{finish, finish_crc, finish_payload}
use rctpower_protocol.Client.Retry
use rctpower_protocol.Client.Pooled
use rctpower_protocol.Client.Pooled.{AsyncClient, new_client}
use rctpower_protocol.Tests.Golden.Simulator.{device, handle, written_float}
use rctpower_protocol.Tests.Golden.Simulator.{no_ack_id}

abbrev soc : ObjectInfo
soc = record {
  group = ObjectGroup.battery;
  object_id = 0x959930bf;
  index = pos 545;
  name = codes "battery.soc";
  request_data_type = DataType.float;
  response_data_type = DataType.float;
  unit = codes "%";
  description = codes "SOC (State of charge)";
  enum_map_raw = [];
}

-- `assert_eq!` of an answer that was expected.
unfoldable gives : Result DataValue → DataValue → Bool
unfolding value_eq
gives answer expected = elim answer [ ok v ↦ value_eq v expected | _ ↦ false ]

abbrev still_connected : AsyncClient → Bool
still_connected c = elim c.conn [ none ↦ false | some k ↦ true ]

unfoldable e2e_async_read_float : Bool
unfolding gives
e2e_async_read_float =
    let (c1, v) = Pooled.read (λ n. device none) 1 new_client soc in
    let (c2, v2) = Pooled.read (λ n. device none) 1 c1 soc in
    gives v (DataValue.f32 0x3ed70a3d) && still_connected c1 && gives v2 (DataValue.f32 0x3ed70a3d)

unfoldable e2e_async_write_float_roundtrip : Floats → Bool
unfolding gives
e2e_async_write_float_roundtrip floats =
    let (c1, v) =
      Pooled.write (λ n. device none) 1 floats new_client soc (DataValue.f32 0x3f5eb852) in
    gives v (DataValue.f32 0x3f5eb852)

-- The object whose WRITE the simulator stores and does not answer.
abbrev unanswered : ObjectInfo
unanswered = record soc { object_id = no_ack_id; unit = []; description = [] }

-- The simulator before its first exchange, and after it.
abbrev storing : Network
storing n = if n == 0 then device none else device (some written_float)

unfoldable e2e_async_write_and_verify_survives_lost_ack : Floats → Bool
unfolding gives
e2e_async_write_and_verify_survives_lost_ack floats =
    let (c1, v) =
      Pooled.write_and_verify storing 2 floats new_client unanswered (DataValue.f32 0x3f5eb852) in
    let (c2, v2) = Pooled.read storing 2 c1 unanswered in
    let (c3, v3) = Pooled.write storing 2 floats c2 soc (DataValue.f32 0x3f000000) in
    gives v (DataValue.f32 0x3f5eb852)
    && gives v2 (DataValue.f32 0x3f5eb852)
    && gives v3 (DataValue.f32 0x3f000000)

read_passes : e2e_async_read_float ≡ true
unfolding e2e_async_read_float Retry.read Retry.exchange Retry.exchange_loop make_frame
    Pooled.try_exchange handle consume consume_loop step step_inside accept command_byte
    check_header parse_header check_end finish finish_crc finish_payload crc16 from_byte
    is_plant_byte is_long byte decode_value
read_passes = refl

write_passes : (floats : Floats) → e2e_async_write_float_roundtrip floats ≡ true
unfolding e2e_async_write_float_roundtrip Retry.write Retry.write_frame encode_for Retry.read
    Retry.exchange Retry.exchange_loop make_frame Pooled.try_exchange handle consume consume_loop
    step step_inside accept command_byte check_header parse_header check_end finish finish_crc
    finish_payload crc16 from_byte is_plant_byte is_long byte decode_value
write_passes floats = refl

write_and_verify_passes :
    (floats : Floats) → e2e_async_write_and_verify_survives_lost_ack floats ≡ true
unfolding e2e_async_write_and_verify_survives_lost_ack Retry.write_and_verify Retry.verify_loop
    Retry.read_back Retry.write Retry.write_frame encode_for value_eq Retry.read Retry.exchange
    Retry.exchange_loop make_frame Pooled.try_exchange handle consume consume_loop step step_inside
    accept command_byte check_header parse_header check_end finish finish_crc finish_payload crc16
    from_byte is_plant_byte is_long byte decode_value
write_and_verify_passes floats = refl
