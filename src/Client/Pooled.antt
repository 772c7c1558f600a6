-- ===== src/Client/Pooled.antt =====
-- `AsyncClient` of src/async_client.rs. A panic while the lock of `conn` is held poisons it, and
-- the `expect` on the lock panics from then on. The tasks that share a client take turns at the
-- lock, which is held for a whole exchange.
pub mod Closing
pub mod Answer
use rctpower_protocol.Base.{ℕ, ◌+◌, Bool, true, false, Option, none, some}
use rctpower_protocol.Base.{List, [], ◌∷◌, is_empty, if◌then◌else◌}
use rctpower_protocol.Error.{RctError, Result, ok, err, panic, ◌>>=◌}
use rctpower_protocol.Types.DataType.{DataType}
use rctpower_protocol.Types.DataValue.{DataValue, Floats}
use rctpower_protocol.Codec.Decode.{decode_value}
use rctpower_protocol.Frame.Receive.{ReceiveFrame, new, consume}
use rctpower_protocol.Registry.{ObjectInfo}
use rctpower_protocol.Client.Retry
use rctpower_protocol.Client.Retry.{Try}
use rctpower_protocol.Client.Network.{Io, done, failed, io, timed, Attempt, Network}

-- `turn` counts the exchanges so far, and is not a field of the program's.
pub record AsyncClient : Type 0 where
  pub conn : Option ℕ
  pub poisoned : Bool
  pub turn : ℕ

-- `AsyncClient::new`: the connection is made by the first call.
abbrev pub new_client : AsyncClient
new_client = record { conn = none; poisoned = false; turn = 0 }

-- The loop that reads until the frame is complete.
unfoldable pub receive : ReceiveFrame → List (Io (List ℕ)) → Result ReceiveFrame
receive rx [] = if rx.complete then ok rx else err RctError.timeout
receive rx (event ∷ events) = elim rx.complete [
  | true ↦ ok rx
  | false ↦ elim event [
    | done [] ↦ err RctError.timeout
    | done (b ∷ bytes) ↦
        let (rx', answer) = consume rx (b ∷ bytes) in
        elim answer [ ok n ↦ receive rx' events | err e ↦ err e | panic ↦ panic ]
    | failed kind ↦ err (RctError.io kind)
  ]
]

unfoldable pub exchange_on : Attempt → ℕ → List ℕ → DataType → Result DataValue
unfolding receive
exchange_on attempt k frame resp_type = do
  _ ← timed (attempt.write_all_async k frame)
  rx ← receive (new false) (attempt.reads k frame)
  if is_empty rx.payload then err RctError.empty_payload else decode_value resp_type rx.payload

-- The socket that is kept, or a new one.
unfoldable pub connection : Attempt → Option ℕ → Result ℕ
connection attempt (some k) = ok k
connection attempt none = timed attempt.connect_async

-- What becomes of the guard: an error drops the connection `k`, a panic poisons the lock.
abbrev pub guarded : ℕ → Result DataValue → Option ℕ × Bool × Result DataValue
guarded k (ok v) = (some k, false, ok v)
guarded k (err e) = (none, false, err e)
guarded k panic = (some k, true, panic)

-- The network is what happens, the state what the client keeps. The configured address and the
-- durations are the network's.
unfoldable pub try_exchange_on :
    Attempt → Option ℕ → List ℕ → DataType → Option ℕ × Bool × Result DataValue
unfolding connection exchange_on
try_exchange_on attempt conn frame resp_type = elim (connection attempt conn) [
  | ok k ↦ guarded k (exchange_on attempt k frame resp_type)
  | err e ↦ (conn, false, err e)
  | panic ↦ (conn, true, panic)
]

unfoldable pub try_exchange : Network → Try AsyncClient
unfolding try_exchange_on
try_exchange net s frame resp_type =
    if s.poisoned
    then (record s { turn = s.turn + 1 }, panic)
    else let (conn, poisoned, answer) = try_exchange_on (net s.turn) s.conn frame resp_type in
      (record { conn = conn; poisoned = poisoned; turn = s.turn + 1 }, answer)

module _ (net : Network) (retries : ℕ) where
  abbrev pub exchange : AsyncClient → List ℕ → DataType → AsyncClient × Result DataValue
  exchange = Retry.exchange (try_exchange net) retries

  abbrev pub read : AsyncClient → ObjectInfo → AsyncClient × Result DataValue
  read = Retry.read (try_exchange net) retries

  abbrev pub write : Floats → AsyncClient → ObjectInfo → DataValue → AsyncClient × Result DataValue
  write = Retry.write (try_exchange net) retries

  abbrev pub write_and_verify :
      Floats → AsyncClient → ObjectInfo → DataValue → AsyncClient × Result DataValue
  write_and_verify = Retry.write_and_verify (try_exchange net) retries
