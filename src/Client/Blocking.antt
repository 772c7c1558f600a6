-- ===== src/Client/Blocking.antt =====
-- `Client` of src/client.rs.
pub mod Answer
pub mod Keeping
use rctpower_protocol.Base.{ℕ, zero, suc, ◌+◌, Bool, true, false, Option, none, some}
use rctpower_protocol.Base.{List, [], ◌∷◌, is_empty, if◌then◌else◌}
use rctpower_protocol.Error.{IoErrorKind, would_block, other_kind, RctError, Result, ok, err}
use rctpower_protocol.Error.{panic, ◌>>=◌}
use rctpower_protocol.Types.Command.{Command, standard}
use rctpower_protocol.Types.DataType.{DataType}
use rctpower_protocol.Types.DataValue.{DataValue, Floats, value_eq}
use rctpower_protocol.Codec.Encode.{encode_for}
use rctpower_protocol.Codec.Decode.{decode_value}
use rctpower_protocol.Frame.Send.{make_frame}
use rctpower_protocol.Frame.Receive.{ReceiveFrame, new, consume}
use rctpower_protocol.Registry.{ObjectInfo}
use rctpower_protocol.Client.Retry
use rctpower_protocol.Client.Retry.{Try}
use rctpower_protocol.Client.Network.{Io, done, failed, io, Attempt, Network}

-- `turn` counts the exchanges so far, and is not a field of the program's.
pub record Client : Type 0 where
  pub conn : Option ℕ
  pub turn : ℕ

-- The loop that reads until the frame is complete.
unfoldable pub receive : ReceiveFrame → List (Io (List ℕ)) → Result ReceiveFrame
receive rx [] = if rx.complete then ok rx else err RctError.timeout
receive rx (event ∷ events) = elim rx.complete [
  | true ↦ ok rx
  | false ↦ elim event [
    | done [] ↦ err RctError.timeout
    | done (b ∷ bytes) ↦
        let (rx', answer) = consume rx (b ∷ bytes) in
        elim answer [ ok n ↦ receive rx' events | err e ↦ err e | panic ↦ panic ]
    | failed would_block ↦ receive rx events
    | failed (other_kind k) ↦ err (RctError.io (other_kind k))
  ]
]

-- From `set_read_timeout` to the end of the loop, on the connection `k`.
unfoldable pub converse : Attempt → ℕ → List ℕ → Result ReceiveFrame
unfolding receive
converse attempt k frame = do
  _ ← io (attempt.set_read_timeout k)
  _ ← io (attempt.set_write_timeout k)
  _ ← io (attempt.write_all k frame)
  receive (new false) (attempt.reads k frame)

-- What the connection ends as, and the value, once the frame is received: a payload that cannot
-- be decoded closes the connection, all other errors keep it.
unfoldable pub settle : ℕ → DataType → Result ReceiveFrame → Option ℕ × Result DataValue
settle k resp_type (ok rx) =
    if is_empty rx.payload
    then (some k, err RctError.empty_payload)
    else elim (decode_value resp_type rx.payload) [
      | ok v ↦ (some k, ok v)
      | err e ↦ (none, err e)
      | panic ↦ (some k, panic)
    ]
settle k resp_type (err e) = (some k, err e)
settle k resp_type panic = (some k, panic)

-- The socket that is kept, or a new one to the first address.
unfoldable pub connection : Attempt → Option ℕ → Result ℕ
connection attempt (some k) = ok k
connection attempt none = do
  addresses ← io attempt.addresses
  elim addresses [ [] ↦ err RctError.timeout | a ∷ _ ↦ io (attempt.connect a) ]

unfoldable pub try_exchange_on :
    Attempt → Option ℕ → List ℕ → DataType → Option ℕ × Result DataValue
unfolding connection converse settle
try_exchange_on attempt conn frame resp_type = elim (connection attempt conn) [
  | ok k ↦ settle k resp_type (converse attempt k frame)
  | err e ↦ (conn, err e)
  | panic ↦ (conn, panic)
]

-- The network is what happens, the state what the client keeps. The configured address and the
-- durations are the network's.
unfoldable pub try_exchange : Network → Try Client
unfolding try_exchange_on
try_exchange net s frame resp_type =
    let (conn, answer) = try_exchange_on (net s.turn) s.conn frame resp_type in
    (record { conn = conn; turn = s.turn + 1 }, answer)

module _ (net : Network) (retries : ℕ) where
  abbrev pub exchange : Client → List ℕ → DataType → Client × Result DataValue
  exchange = Retry.exchange (try_exchange net) retries

  abbrev pub read : Client → ObjectInfo → Client × Result DataValue
  read = Retry.read (try_exchange net) retries

  abbrev pub write : Floats → Client → ObjectInfo → DataValue → Client × Result DataValue
  write = Retry.write (try_exchange net) retries

  abbrev pub write_and_verify : Floats → Client → ObjectInfo → DataValue → Client × Result DataValue
  write_and_verify = Retry.write_and_verify (try_exchange net) retries
