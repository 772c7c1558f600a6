-- ===== src/Tests/Golden/Simulator.antt =====
-- The inverter that the end-to-end tests in the source files run against: `parse_request` and
-- `handle` of src/tests/simulator.py. A float is the bytes of its pattern.
use rctpower_protocol.Base.{ℕ, ◌-◌, false, Option, none, some, List, [], ◌∷◌, ◌==◌}
use rctpower_protocol.Base.{if◌then◌else◌, drop, take, length}
use rctpower_protocol.Error.{Result, ok, err, panic}
use rctpower_protocol.Types.Command.{Command, standard}
use rctpower_protocol.Codec.Decode.{be_u32, index}
use rctpower_protocol.Frame.Send.{make_frame}
use rctpower_protocol.Frame.Escapes.{unescape}
use rctpower_protocol.Client.Network.{Io, done, Attempt}
use rctpower_protocol.Proxy.{Turn}

-- RESPONSE_FLOAT, 0.42, and the 0.87 that the tests write.
abbrev pub response_float : List ℕ
response_float = 0x3e ∷ 0xd7 ∷ 0x0a ∷ 0x3d ∷ []

abbrev pub written_float : List ℕ
written_float = 0x3f ∷ 0x5e ∷ 0xb8 ∷ 0x52 ∷ []

abbrev pub no_ack_id : ℕ
no_ack_id = 0xdeadbeef

-- The command, the object id and the payload.
unfoldable pub parse_request : List ℕ → Result (ℕ × ℕ × List ℕ)
unfolding unescape
parse_request request =
    let raw = unescape false (drop 1 request) in
    elim (be_u32 raw 2 3 4 5) [
      | ok oid ↦ elim (index raw 0) [
        | ok command ↦ ok (command, oid, drop 6 (take (length raw - 2) raw))
        | err e ↦ err e
        | panic ↦ panic
      ]
      | err e ↦ err e
      | panic ↦ panic
    ]

unfoldable pub respond : ℕ → List ℕ → List (Io (List ℕ))
unfolding make_frame
respond oid payload = elim (make_frame Command.response oid payload 0 standard) [
  | ok resp ↦ done resp ∷ []
  | _ ↦ []
]

-- What is stored under `no_ack_id`, and what a request is answered with: the value stored after
-- it, and the frame sent, if any.
unfoldable pub handle : Option (List ℕ) → List ℕ → Option (List ℕ) × List (Io (List ℕ))
unfolding parse_request respond
handle applied request = elim (parse_request request) [
  | ok (command, oid, payload) ↦
      if command == 2
      then (if oid == no_ack_id then (some payload, []) else (applied, respond oid payload))
      else (
        applied,
        elim applied [
          | none ↦ respond oid response_float
          | some v ↦ respond oid (if oid == no_ack_id then v else response_float)
        ],
      )
  | _ ↦ (applied, [])
]

-- The simulator on the other side of a client's connection, and of the proxy's.
abbrev pub device : Option (List ℕ) → Attempt
device applied = record {
  addresses = done (0 ∷ []);
  connect = λ a. done 0;
  connect_async = some (done 0);
  set_read_timeout = λ k. done 0;
  set_write_timeout = λ k. done 0;
  write_all = λ k frame. done 0;
  write_all_async = λ k frame. some (done 0);
  reads = λ k frame. (handle applied frame).1;
}

abbrev pub inverter : Option (List ℕ) → Turn
inverter applied = record {
  connect = done 0;
  write_all = λ k wire. some (done 0);
  reads = λ k wire. (handle applied wire).1;
  reply = λ wire. done 0;
}
