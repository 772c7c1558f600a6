-- ===== src/Proxy/Describe.antt =====
-- `describe_frame` of src/proxy.rs. The derived `Debug` of a command and of a value are parameters.
use rctpower_protocol.Base.{ℕ, ◌-◌, ◌≡◌, ◌≢◌, refl, arith, true, false}
use rctpower_protocol.Base.{Option, none, some, List, []}
use rctpower_protocol.Base.{◌∷◌, ◌++◌, length, zero, suc, inl, inr}
use rctpower_protocol.Base.Bytes.{codes}
use rctpower_protocol.Base.Text.{Text, hex, decimal}
use rctpower_protocol.Base.Strings.Digits.{hex_upper}
use rctpower_protocol.Error.{Result, ok, err, panic, ◌>>=◌, Result-cases}
use rctpower_protocol.Types.Command.{Command}
use rctpower_protocol.Types.DataValue.{DataValue}
use rctpower_protocol.Codec.Decode.{decode_value}
use rctpower_protocol.Codec.RoundTrip.{decode_value-ne-panic}
use rctpower_protocol.Frame.Receive.{ReceiveFrame}
use rctpower_protocol.Registry.{ObjectInfo}
use rctpower_protocol.Registry.Build.{Registry, get_by_id, enum_str, is_enum}
use rctpower_protocol.Registry.Enum.{enum_str-total}

-- `format!("{c:?}")` and `format!("{v:?}")`.
pub record Debug : Type 0 where
  pub command : Command → Text
  pub value : DataValue → Text

-- `{:08X}`.
zeros : ℕ → Text
zeros zero = []
zeros (suc n) = b'0' ∷ zeros n

unfoldable pub hex_8 : ℕ → Text
unfolding zeros
hex_8 n = zeros (8 - length (hex_upper n)) ++ hex_upper n

-- The number of an enumeration, with its label where there is one.
unfoldable pub shown_enum : ObjectInfo → ℕ → Result Text
shown_enum o v = do
  label ← enum_str o v
  ok (elim label [ none ↦ decimal v | some es ↦ decimal v ++ (codes " (" ++ (es ++ codes ")")) ])

-- The arms for a value that has been decoded.
unfoldable pub shown_value : Debug → ObjectInfo → DataValue → Result Text
unfolding shown_enum
shown_value debug o (DataValue.u32 v) = elim (is_enum o.request_data_type) [
  | true ↦ shown_enum o v
  | false ↦ ok (debug.value (DataValue.u32 v))
]
shown_value debug o v = ok (debug.value v)

-- A payload that is not decoded is shown as `data_hex`.
unfoldable pub shown : Debug → Option ObjectInfo → List ℕ → Result Text
unfolding shown_value
shown debug none payload = ok (hex payload)
shown debug (some o) payload = elim (decode_value o.response_data_type payload) [
  | ok v ↦ shown_value debug o v
  | err e ↦ ok (hex payload)
  | panic ↦ panic
]

unfoldable pub head : Debug → Option ObjectInfo → ReceiveFrame → Text
unfolding hex_8
head debug obj rx =
    elim rx.command [ none ↦ codes "?" | some c ↦ debug.command c ]
    ++ (codes " "
        ++ (elim obj [ none ↦ codes "unknown" | some o ↦ o.name ]
            ++ (codes " (0x" ++ (hex_8 rx.id ++ codes ")"))))

unfoldable pub describe_frame : Registry → Debug → ReceiveFrame → Result Text
unfolding head shown
describe_frame reg debug rx =
    let obj = get_by_id reg rx.id in
    elim rx.payload [
      | [] ↦ ok (head debug obj rx)
      | b ∷ bs ↦ (do
        text ← shown debug obj (b ∷ bs)
        ok (head debug obj rx ++ (codes " = " ++ text)))
    ]

shown_value-total : (debug : Debug) (o : ObjectInfo) (v : DataValue) → shown_value debug o v ≢ panic
unfolding shown_value shown_enum
shown_value-total debug o (DataValue.u32 v) e =
    let (label, total) = enum_str-total o v in ground arith
shown_value-total debug o _ e = cc

shown-total :
    (debug : Debug) (obj : Option ObjectInfo) (payload : List ℕ) → shown debug obj payload ≢ panic
unfolding shown
shown-total debug none payload e = cc
shown-total debug (some o) payload e =
    elim (Result-cases (decode_value o.response_data_type payload)) [
      | inl (v, d) ↦ shown_value-total debug o v (rw (d, shown) at e)
      | inr (inl (x, d)) ↦ cc (rw (d, shown) at e)
      | inr (inr d) ↦ decode_value-ne-panic o.response_data_type payload d
    ]

describe_payload :
    (reg : Registry) (debug : Debug) (rx : ReceiveFrame) (payload : List ℕ)
    → rx.payload ≡ payload
    → describe_frame reg debug rx ≢ panic
unfolding describe_frame
describe_payload reg debug rx [] held e = absurd (cc (rw (held, describe_frame) at e))
describe_payload reg debug rx (b ∷ bs) held e =
    let obj = get_by_id reg rx.id in
    elim (Result-cases (shown debug obj (b ∷ bs))) [
      | inl (text, d) ↦ absurd (cc (rw (held, d, describe_frame) at e))
      | inr (inl (x, d)) ↦ absurd (cc (rw (held, d, describe_frame) at e))
      | inr (inr d) ↦ shown-total debug obj (b ∷ bs) d
    ]

-- Whatever the registry and the parser hold, `describe_frame` does not panic, neither in the decoder
-- nor in the `unwrap` of `enum_str`: a log line does not end a session.
pub describe_frame-ne-panic :
    (reg : Registry) (debug : Debug) (rx : ReceiveFrame) → describe_frame reg debug rx ≢ panic
describe_frame-ne-panic reg debug rx = describe_payload reg debug rx rx.payload refl
