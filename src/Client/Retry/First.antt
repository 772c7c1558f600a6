-- ===== src/Client/Retry/First.antt =====
-- `read` and `write` whose first exchange gives a value.
use rctpower_protocol.Base.{ℕ, ◌≡◌, arith, List, []}
use rctpower_protocol.Error.{ok}
use rctpower_protocol.Types.Command.{Command, standard}
use rctpower_protocol.Types.DataType.{DataType}
use rctpower_protocol.Types.DataValue.{DataValue, Floats}
use rctpower_protocol.Codec.Encode.{encode_for}
use rctpower_protocol.Frame.Send.{make_frame}
use rctpower_protocol.Registry.{ObjectInfo}
use rctpower_protocol.Client.Retry.{Try, exchange, read, write, write_frame}
use rctpower_protocol.Client.Retry.Turns.{exchange-recovers, attempts-suc}

module _ {S : Type 0} (try_exchange : Try S) (retries : ℕ) (s s' : S) (request : List ℕ)
    (v : DataValue) where
  exchange_first :
      (t : DataType)
      → try_exchange s request t ≡ (s', ok v)
      → exchange try_exchange retries s request t ≡ (s', ok v)
  exchange_first t once =
      let (n, e) = attempts-suc retries in
      exchange-recovers try_exchange retries request t 0 s s' v (omega (arith, e))
        (λ i below. absurd (omega (arith, below))) once

  pub read_first :
      (obj : ObjectInfo)
      → make_frame Command.read obj.object_id [] 0 standard ≡ ok request
      → try_exchange s request obj.response_data_type ≡ (s', ok v)
      → read try_exchange retries s obj ≡ (s', ok v)
  unfolding read
  read_first obj asked once = rw (asked, read) (exchange_first obj.response_data_type once)

  pub write_first :
      (floats : Floats) (obj : ObjectInfo) (value : DataValue) (stored : List ℕ)
      → encode_for floats obj.request_data_type value ≡ ok stored
      → make_frame Command.write obj.object_id stored 0 standard ≡ ok request
      → try_exchange s request obj.response_data_type ≡ (s', ok v)
      → write try_exchange retries floats s obj value ≡ (s', ok v)
  unfolding write write_frame
  write_first floats obj value stored encoded asked once =
      let framed : write_frame try_exchange retries floats obj value ≡ ok request =
        rw (encoded) asked in
      rw (framed, write) (exchange_first obj.response_data_type once)
