-- ===== src/Tests/Golden/Proxy.antt =====
-- The tests in src/proxy.rs, as Booleans, against the simulator. A client of the proxy is its
-- session, and what the client reads next is the next of the replies.
use rctpower_protocol.Base.{ℕ, Bool, true, false, ◌&&◌, ◌≡◌, refl, Option, none, some, List}
use rctpower_protocol.Base.{[], ◌∷◌, ◌==◌, drop, take, length, get_elem?}
use rctpower_protocol.Error.{IoErrorKind, Result, ok}
use rctpower_protocol.Types.Command.{Command, standard, byte, from_byte, is_plant_byte, is_long}
use rctpower_protocol.Types.DataType.{DataType}
use rctpower_protocol.Types.DataValue.{DataValue, value_eq}
use rctpower_protocol.Codec.Crc.{crc16}
use rctpower_protocol.Codec.Decode.{decode_value}
use rctpower_protocol.Frame.Send.{make_frame, escape_token}
use rctpower_protocol.Frame.Receive.{new, consume, consume_loop, step, step_inside}
use rctpower_protocol.Frame.Receive.{accept, command_byte, check_header, parse_header, check_end}
use rctpower_protocol.Frame.Receive.{finish, finish_crc, finish_payload}
use rctpower_protocol.Client.Network.{done, failed}
use rctpower_protocol.Client.Pooled
use rctpower_protocol.Proxy
use rctpower_protocol.Proxy.{World, Turn, Upstream, Session, start, serve_bytes, serve_client}
use rctpower_protocol.Tests.Golden.Frame.{has}
use rctpower_protocol.Tests.Golden.Simulator.{inverter, handle, written_float, no_ack_id}

-- The proxy that has been bound, and a world that stays as it is.
abbrev bound : Upstream
bound = record { conn = none; turn = 0 }

abbrev simulated : Option (List ℕ) → World
simulated applied t = inverter applied

-- `read_float`: the reply number `n` of a session, as a float.
unfoldable read_float : Session → ℕ → Option DataValue
unfolding consume decode_value
read_float s n = elim (get_elem? s.replies n) [
  | none ↦ none
  | some reply ↦
      let (rx, answer) = consume (new false) reply in
      elim answer [
        | ok consumed ↦ elim (decode_value DataType.float rx.payload) [ ok v ↦ some v | _ ↦ none ]
        | _ ↦ none
      ]
]

-- `assert_eq!` of what is read, and a read that runs out of time.
unfoldable reads : Session → ℕ → DataValue → Bool
unfolding read_float value_eq
reads s n expected = elim (read_float s n) [ some v ↦ value_eq v expected | none ↦ false ]

abbrev times_out : Session → ℕ → Bool
times_out s n = elim s.ending [ some e ↦ false | none ↦ length s.replies == n ]

-- A test of a frame that `make_frame` gives.
abbrev with_frame : Result (List ℕ) → (List ℕ → Bool) → Bool
with_frame made test = elim made [ ok frame ↦ test frame | _ ↦ false ]

unfoldable proxy_multiplexes_two_downstream_clients : Bool
unfolding make_frame serve_bytes reads
proxy_multiplexes_two_downstream_clients =
    with_frame (make_frame Command.read 0x959930bf [] 0 standard) (λ read_req.
      with_frame (make_frame Command.write 0x959930bf written_float 0 standard) (λ write_req.
        let (up1, c1) = serve_bytes (simulated none) bound start read_req in
        let (up2, c2) = serve_bytes (simulated none) up1 start write_req in
        let (up3, c1') = serve_bytes (simulated none) up2 c1 read_req in
        reads c1 0 (DataValue.f32 0x3ed70a3d)
        && reads c2 0 (DataValue.f32 0x3f5eb852)
        && reads c1' 1 (DataValue.f32 0x3ed70a3d)))

-- The simulator has been killed: its connection ends, and no other can be made.
abbrev dead : World
dead t = record {
  connect = failed (IoErrorKind.other_kind 0);
  write_all = λ k wire. some (done 0);
  reads = λ k wire. done [] ∷ [];
  reply = λ wire. done 0;
}

unfoldable upstream_failure_keeps_downstream_session_open : Bool
unfolding make_frame serve_bytes reads
upstream_failure_keeps_downstream_session_open =
    with_frame (make_frame Command.read 0x959930bf [] 0 standard) (λ req.
      let (up1, c1) = serve_bytes (simulated none) bound start req in
      let (up2, c2) = serve_bytes dead up1 c1 req in
      let (up3, c3) = serve_bytes (simulated none) up2 c2 req in
      reads c1 0 (DataValue.f32 0x3ed70a3d)
      && times_out c2 1
      && reads c3 1 (DataValue.f32 0x3ed70a3d))

unfoldable escape_bytes_survive_proxy_roundtrip : Bool
unfolding make_frame serve_bytes reads has consume
escape_bytes_survive_proxy_roundtrip =
    with_frame (make_frame Command.read 0x2d002b00 [] 0 standard) (λ req.
      let (up, c) = serve_bytes (simulated none) bound start req in
      has escape_token (drop 1 req)
      && elim c.replies [
        | [] ↦ false
        | reply ∷ more ↦
            let rx = (consume (new false) reply).0 in
            has escape_token reply && rx.complete && rx.crc_ok && rx.id == 0x2d002b00
      ]
      && reads c 0 (DataValue.f32 0x3ed70a3d))

unfoldable split_downstream_frame_is_forwarded_whole : Bool
unfolding make_frame serve_client reads
split_downstream_frame_is_forwarded_whole =
    with_frame (make_frame Command.read 0x959930bf [] 0 standard) (λ req.
      let (up1, c1) =
        serve_client (simulated none) bound start (done (take 5 req) ∷ done (drop 5 req) ∷ []) in
      let (up2, c2) = serve_client (simulated none) up1 c1 (done req ∷ []) in
      reads c1 0 (DataValue.f32 0x3ed70a3d) && reads c2 1 (DataValue.f32 0x3ed70a3d))

unfoldable write_without_ack_times_out_but_value_is_applied : Bool
unfolding make_frame serve_bytes reads
write_without_ack_times_out_but_value_is_applied =
    with_frame (make_frame Command.write no_ack_id written_float 0 standard) (λ write_req.
      with_frame (make_frame Command.read no_ack_id [] 0 standard) (λ read_req.
        let (up1, c1) = serve_bytes (simulated none) bound start write_req in
        let (up2, c2) = serve_bytes (simulated (some written_float)) up1 c1 read_req in
        times_out c1 0 && reads c2 0 (DataValue.f32 0x3f5eb852)))

multiplexes_passes : proxy_multiplexes_two_downstream_clients ≡ true
unfolding proxy_multiplexes_two_downstream_clients serve_bytes Proxy.serve_byte Proxy.hear
    Proxy.deliver Proxy.exchange Proxy.exchange_on handle consume consume_loop step step_inside
    accept command_byte check_header parse_header check_end finish finish_crc finish_payload crc16
    from_byte is_plant_byte is_long byte make_frame decode_value Proxy.connection Pooled.receive
multiplexes_passes = refl

failure_passes : upstream_failure_keeps_downstream_session_open ≡ true
unfolding upstream_failure_keeps_downstream_session_open serve_bytes Proxy.serve_byte Proxy.hear
    Proxy.deliver Proxy.exchange Proxy.exchange_on handle consume consume_loop step step_inside
    accept command_byte check_header parse_header check_end finish finish_crc finish_payload crc16
    from_byte is_plant_byte is_long byte make_frame decode_value Proxy.connection Pooled.receive
failure_passes = refl

escapes_passes : escape_bytes_survive_proxy_roundtrip ≡ true
unfolding escape_bytes_survive_proxy_roundtrip serve_bytes Proxy.serve_byte Proxy.hear Proxy.deliver
    Proxy.exchange Proxy.exchange_on handle consume consume_loop step step_inside accept
    command_byte check_header parse_header check_end finish finish_crc finish_payload crc16
    from_byte is_plant_byte is_long byte make_frame decode_value Proxy.connection Pooled.receive
escapes_passes = refl

split_passes : split_downstream_frame_is_forwarded_whole ≡ true
unfolding split_downstream_frame_is_forwarded_whole serve_client serve_bytes Proxy.serve_byte
    Proxy.hear Proxy.deliver Proxy.exchange Proxy.exchange_on handle consume consume_loop step
    step_inside accept command_byte check_header parse_header check_end finish finish_crc
    finish_payload crc16 from_byte is_plant_byte is_long byte make_frame decode_value
    Proxy.connection Pooled.receive
split_passes = refl

lost_ack_passes : write_without_ack_times_out_but_value_is_applied ≡ true
unfolding write_without_ack_times_out_but_value_is_applied serve_bytes Proxy.serve_byte Proxy.hear
    Proxy.deliver Proxy.exchange Proxy.exchange_on handle consume consume_loop step step_inside
    accept command_byte check_header parse_header check_end finish finish_crc finish_payload crc16
    from_byte is_plant_byte is_long byte make_frame decode_value Proxy.connection Pooled.receive
lost_ack_passes = refl
