-- ===== src/Client/Pooled/Answer.antt =====
-- What the pooled client makes of a device's answer.
use rctpower_protocol.Base.{ℕ, ◌+◌, ◌≡◌, ◌≢◌, refl, ap, arith, false, true, Option, some}
use rctpower_protocol.Base.{List, [], ◌∷◌, ◌++◌}
use rctpower_protocol.Base.{is_empty, if◌then◌else◌}
use rctpower_protocol.Error.{RctError, ok, err}
use rctpower_protocol.Types.Command.{Command, standard}
use rctpower_protocol.Types.DataType.{DataType}
use rctpower_protocol.Types.DataValue.{DataValue}
use rctpower_protocol.Codec.Decode.{decode_value}
use rctpower_protocol.Frame.Send.{make_frame}
use rctpower_protocol.Frame.Receive.{ReceiveFrame, consume}
use rctpower_protocol.Registry.{ObjectInfo}
use rctpower_protocol.Client.Retry.First.{read_first}
use rctpower_protocol.Client.Network.{Io, done, Attempt, Network}
use rctpower_protocol.Client.Reads.{Receives, IsFrame, InPieces, receive_frame}
use rctpower_protocol.Client.Pooled.{AsyncClient, receive, exchange_on, connection, try_exchange}
use rctpower_protocol.Client.Pooled.{guarded}
use rctpower_protocol.Client.Pooled.{try_exchange_on, read}

-- The exchange of `request` on the connection `k` meets no error, and its reads give `bytes` in
-- pieces.
pub record Answers (attempt : Attempt) (conn : Option ℕ) (k : ℕ) (request bytes : List ℕ)
    : Type 0 where
  pub connected : connection attempt conn ≡ ok k
  pub written : attempt.write_all_async k request ≡ some (done 0)
  pub answered : InPieces bytes (attempt.reads k request)

receive-complete :
    (rx : ReceiveFrame) (events : List (Io (List ℕ)))
    → rx.complete ≡ true
    → receive rx events ≡ ok rx
unfolding receive
receive-complete rx [] h = rw h
receive-complete rx (event ∷ events) h = rw h

receive-bytes :
    (rx r : ReceiveFrame) (b : ℕ) (bytes : List ℕ) (n : ℕ) (events : List (Io (List ℕ)))
    → rx.complete ≡ false
    → consume rx (b ∷ bytes) ≡ (r, ok n)
    → receive rx (done (b ∷ bytes) ∷ events) ≡ receive r events
unfolding receive
receive-bytes rx r b bytes n events waiting answer =
    let counted : (consume rx (b ∷ bytes)).1 ≡ ok n = ap (λ p. p.1) answer in
    let parser : (consume rx (b ∷ bytes)).0 ≡ r = ap (λ p. p.0) answer in ground arith

pub receive-Receives : Receives receive
receive-Receives = record { on_complete = receive-complete; on_bytes = receive-bytes }

decode_answer :
    (t : DataType) (v : DataValue) (payload bytes : List ℕ)
    → bytes ≡ payload
    → payload ≢ []
    → decode_value t payload ≡ ok v
    → (if is_empty bytes then err RctError.empty_payload else decode_value t bytes) ≡ ok v
decode_answer t v [] bytes held some_bytes decoded = absurd (some_bytes refl)
decode_answer t v (b ∷ payload) bytes held some_bytes decoded = rw (held) decoded

-- From a device that answers with a whole frame on.
module _ (net : Network) (s : AsyncClient) (k : ℕ) (request junk rest frame : List ℕ) (c : Command)
    (payload : List ℕ) (id : ℕ) (t : DataType) (v : DataValue) (f : IsFrame c payload id junk frame)
    (usable : s.poisoned ≡ false)
    (answers : Answers (net s.turn) s.conn k request (junk ++ (frame ++ rest)))
    (some_bytes : payload ≢ []) (decoded : decode_value t payload ≡ ok v) where
  exchange_on-answer : exchange_on (net s.turn) k request t ≡ ok v
  unfolding exchange_on
  exchange_on-answer =
      let (r, received, held, wired) =
        receive_frame receive c payload id junk frame rest ((net s.turn).reads k request)
          receive-Receives f answers.answered in
      rw (answers.written, received) (decode_answer t v payload r.payload held some_bytes decoded)

  try_exchange-answer :
      try_exchange net s request t
      ≡ (record { conn = some k; poisoned = false; turn = s.turn + 1 }, ok v)
  unfolding try_exchange try_exchange_on
  try_exchange-answer =
      rw (usable, answers.connected, try_exchange_on)
        (ap
          (λ x.
            let (conn, poisoned, answer) = guarded k x in
            (record { conn = conn; poisoned = poisoned; turn = s.turn + 1 }, answer))
          exchange_on-answer)

-- The lock is not poisoned, the connection is there or can be
-- made, nothing fails on it, no wait runs out of time, and the reads after the READ frame give, in
-- any pieces, bytes that are no start token, a standard frame that `make_frame` built, and any
-- bytes behind it. The frame is of any command but the extension, with any u32 as object id, and
-- with a payload that fits, is not empty (so that the command is not READ) and is decoded for the
-- object to `v`. Then `read` gives `v` after one exchange, and keeps the connection.
pub read-answer_async :
    (net : Network) (retries : ℕ) (s : AsyncClient) (obj : ObjectInfo) (k : ℕ)
    (request junk rest frame : List ℕ) (c : Command) (payload : List ℕ) (id : ℕ) (v : DataValue)
    → make_frame Command.read obj.object_id [] 0 standard ≡ ok request
    → IsFrame c payload id junk frame
    → s.poisoned ≡ false
    → Answers (net s.turn) s.conn k request (junk ++ (frame ++ rest))
    → payload ≢ []
    → decode_value obj.response_data_type payload ≡ ok v
    → read net retries s obj ≡ (record { conn = some k; poisoned = false; turn = s.turn + 1 }, ok v)
read-answer_async net retries s obj k request junk rest frame c payload id v asked f usable answers
      some_bytes decoded =
    read_first (try_exchange net) retries s _ request v obj asked (
      try_exchange-answer net s k request junk rest frame c payload id obj.response_data_type v f
        usable answers some_bytes decoded)
