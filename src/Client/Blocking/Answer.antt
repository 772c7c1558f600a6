-- ===== src/Client/Blocking/Answer.antt =====
-- What the blocking client makes of a device's answer.
use rctpower_protocol.Base.{ℕ, ◌+◌, ◌≡◌, ◌≢◌, refl, ap, ◌∙◌, arith, false, true, Option, some}
use rctpower_protocol.Base.{List, [], ◌∷◌, ◌++◌}
use rctpower_protocol.Error.{ok}
use rctpower_protocol.Types.Command.{Command, standard}
use rctpower_protocol.Types.DataType.{DataType}
use rctpower_protocol.Types.DataValue.{DataValue, Floats}
use rctpower_protocol.Codec.Encode.{encode_for}
use rctpower_protocol.Codec.Decode.{decode_value}
use rctpower_protocol.Frame.Send.{make_frame}
use rctpower_protocol.Frame.Receive.{ReceiveFrame, consume}
use rctpower_protocol.Registry.{ObjectInfo}
use rctpower_protocol.Client.Retry.First.{read_first, write_first}
use rctpower_protocol.Client.Network.{Io, done, Attempt, Network}
use rctpower_protocol.Client.Reads.{Receives, IsFrame, InPieces, receive_frame}
use rctpower_protocol.Client.Blocking.{Client, receive, converse, settle, connection}
use rctpower_protocol.Client.Blocking.{try_exchange}
use rctpower_protocol.Client.Blocking.{try_exchange_on, read, write}

-- The exchange of `request` on the connection `k` meets no error, and its reads give `bytes` in
-- pieces.
pub record Answers (attempt : Attempt) (conn : Option ℕ) (k : ℕ) (request bytes : List ℕ)
    : Type 0 where
  pub connected : connection attempt conn ≡ ok k
  pub read_timeout_set : attempt.set_read_timeout k ≡ done 0
  pub write_timeout_set : attempt.set_write_timeout k ≡ done 0
  pub written : attempt.write_all k request ≡ done 0
  pub answered : InPieces bytes (attempt.reads k request)

receive-complete :
    (rx : ReceiveFrame) (events : List (Io (List ℕ)))
    → rx.complete ≡ true
    → receive rx events ≡ ok rx
unfolding receive
receive-complete rx [] h = rw h
receive-complete rx (event ∷ events) h = rw h

receive-bytes :
    (rx r : ReceiveFrame) (b : ℕ) (bytes : List ℕ) (n : ℕ) (events : List (Io (List ℕ)))
    → rx.complete ≡ false
    → consume rx (b ∷ bytes) ≡ (r, ok n)
    → receive rx (done (b ∷ bytes) ∷ events) ≡ receive r events
unfolding receive
receive-bytes rx r b bytes n events waiting answer =
    let counted : (consume rx (b ∷ bytes)).1 ≡ ok n = ap (λ p. p.1) answer in
    let parser : (consume rx (b ∷ bytes)).0 ≡ r = ap (λ p. p.0) answer in ground arith

receive-Receives : Receives receive
receive-Receives = record { on_complete = receive-complete; on_bytes = receive-bytes }

settle_answer :
    (k : ℕ) (t : DataType) (v : DataValue) (r : ReceiveFrame) (payload : List ℕ)
    → r.payload ≡ payload
    → payload ≢ []
    → decode_value t payload ≡ ok v
    → settle k t (ok r) ≡ (some k, ok v)
unfolding settle
settle_answer k t v r [] held some_bytes decoded = absurd (some_bytes refl)
settle_answer k t v r (b ∷ payload) held some_bytes decoded = rw (held, decoded) refl

-- From a device that answers with a whole frame on.
module _ (net : Network) (s : Client) (k : ℕ) (request junk rest frame : List ℕ) (c : Command)
    (payload : List ℕ) (id : ℕ) (t : DataType) (v : DataValue) (f : IsFrame c payload id junk frame)
    (answers : Answers (net s.turn) s.conn k request (junk ++ (frame ++ rest)))
    (some_bytes : payload ≢ []) (decoded : decode_value t payload ≡ ok v) where
  try_exchange_on-answer : try_exchange_on (net s.turn) s.conn request t ≡ (some k, ok v)
  unfolding try_exchange_on converse
  try_exchange_on-answer =
      let (r, received, held, wired) =
        receive_frame receive c payload id junk frame rest ((net s.turn).reads k request)
          receive-Receives f answers.answered in
      let talked : converse (net s.turn) k request ≡ ok r =
        rw (answers.read_timeout_set, answers.write_timeout_set, answers.written) received in
      rw (answers.connected, try_exchange_on)
        (ap (settle k t) talked ∙ settle_answer k t v r payload held some_bytes decoded)

  try_exchange-answer :
      try_exchange net s request t ≡ (record { conn = some k; turn = s.turn + 1 }, ok v)
  unfolding try_exchange
  try_exchange-answer =
      ap (λ p. (record { conn = p.0; turn = s.turn + 1 }, p.1)) try_exchange_on-answer

-- The connection is there or can be made, nothing fails on it, and the reads after the READ frame
-- give, in any pieces, bytes that are no start token, a standard frame that `make_frame` built,
-- and any bytes behind it. The frame is of any command but the extension, with any u32 as object
-- id, and with a payload that fits, is not empty (so that the command is not READ) and is decoded
-- for the object to `v`. Then `read` gives `v` after one exchange, and keeps the connection.
pub read-answer :
    (net : Network) (retries : ℕ) (s : Client) (obj : ObjectInfo) (k : ℕ)
    (request junk rest frame : List ℕ) (c : Command) (payload : List ℕ) (id : ℕ) (v : DataValue)
    → make_frame Command.read obj.object_id [] 0 standard ≡ ok request
    → IsFrame c payload id junk frame
    → Answers (net s.turn) s.conn k request (junk ++ (frame ++ rest))
    → payload ≢ []
    → decode_value obj.response_data_type payload ≡ ok v
    → read net retries s obj ≡ (record { conn = some k; turn = s.turn + 1 }, ok v)
read-answer net retries s obj k request junk rest frame c payload id v asked f answers some_bytes
      decoded =
    read_first (try_exchange net) retries s _ request v obj asked (
      try_exchange-answer net s k request junk rest frame c payload id obj.response_data_type v f
        answers some_bytes decoded)

-- The value can be encoded for the object, the connection is there or can be made, nothing fails
-- on it, and the reads after the WRITE frame give, in any pieces, bytes that are no start token, a
-- standard frame that `make_frame` built, and any bytes behind it. The frame is of any command but
-- the extension, with any u32 as object id, and with a payload that fits, is not empty (so that
-- the command is not READ) and is decoded for the object to `v`. Then `write` gives `v` after one
-- exchange, and keeps the connection.
pub write-answer :
    (net : Network) (retries : ℕ) (floats : Floats) (s : Client) (obj : ObjectInfo)
    (value : DataValue) (k : ℕ) (stored request junk rest frame : List ℕ) (c : Command)
    (payload : List ℕ) (id : ℕ) (v : DataValue)
    → encode_for floats obj.request_data_type value ≡ ok stored
    → make_frame Command.write obj.object_id stored 0 standard ≡ ok request
    → IsFrame c payload id junk frame
    → Answers (net s.turn) s.conn k request (junk ++ (frame ++ rest))
    → payload ≢ []
    → decode_value obj.response_data_type payload ≡ ok v
    → write net retries floats s obj value ≡ (record { conn = some k; turn = s.turn + 1 }, ok v)
write-answer net retries floats s obj value k stored request junk rest frame c payload id v encoded
      asked f answers some_bytes decoded =
    write_first (try_exchange net) retries s _ request v floats obj value stored encoded asked (
      try_exchange-answer net s k request junk rest frame c payload id obj.response_data_type v f
        answers some_bytes decoded)
