-- ===== src/Client/Blocking/Keeping.antt =====
-- When the blocking client of src/client.rs keeps its connection.
use rctpower_protocol.Base.{ℕ, ◌≡◌, ◌≢◌, refl, arith, none, some}
use rctpower_protocol.Base.{List, [], ◌∷◌, ◌⊎◌, inl, inr, Bool-cases, is_empty, length}
use rctpower_protocol.Base.{Option-cases}
use rctpower_protocol.Base.Text.{Text}
use rctpower_protocol.Error.{RctError, Result, ok, err, panic, Result-cases}
use rctpower_protocol.Types.DataType.{DataType, name}
use rctpower_protocol.Types.DataValue.{DataValue}
use rctpower_protocol.Codec.Decode.{decode_value, need, decode_native}
use rctpower_protocol.Frame.Receive.{ReceiveFrame}
use rctpower_protocol.Client.Retry.Turns.{Counts, exchange-holds}
use rctpower_protocol.Client.Network.{done, Network}
use rctpower_protocol.Client.Blocking.{Client, receive, converse, settle, connection}
use rctpower_protocol.Client.Blocking.{try_exchange}
use rctpower_protocol.Client.Blocking.{try_exchange_on, exchange}

-- The error of a payload that is too short for its type.
abbrev pub IsTooShort : Result DataValue → Type 0
IsTooShort answer =
    (type_name : Text) × (len : ℕ) × (n : ℕ) × (answer
      ≡ err (RctError.payload_too_short type_name len n))

decode_native-ne-err : (t : DataType) (xs : List ℕ) (e : RctError) → decode_native t xs ≢ err e
unfolding decode_native
decode_native-ne-err DataType.bool xs e = ground arith
decode_native-ne-err _ xs e = ground arith

decode_value-IsTooShort :
    (t : DataType) (xs : List ℕ) (e : RctError) → decode_value t xs ≡ err e → IsTooShort (err e)
unfolding decode_value
decode_value-IsTooShort t xs e h = elim (Option-cases (need t)) [
  | inl none_needed ↦ absurd (ground arith)
  | inr (n, needed) ↦ (
    name t,
    length xs,
    n,
    (let short : err e ≡ err (RctError.payload_too_short (name t) (length xs) n) =
          ground (arith, decode_native-ne-err t xs e) in
        short),
  )
]

settle-keeps :
    (k : ℕ) (t : DataType) (r : Result ReceiveFrame)
    → let (conn, answer) = settle k t r in (conn ≡ some k) ⊎ ((conn ≡ none) × IsTooShort answer)
unfolding settle
settle-keeps k t (ok rx) = elim (Bool-cases (is_empty rx.payload)) [
  | inl e ↦ rw (e, settle) (inl refl)
  | inr e ↦ elim (Result-cases (decode_value t rx.payload)) [
    | inl (v, h) ↦ rw (e, settle, h) (inl refl)
    | inr (inl (x, h)) ↦ rw (e, settle, h) (inr (refl, decode_value-IsTooShort t rx.payload x h))
    | inr (inr h) ↦ rw (e, settle, h) (inl refl)
  ]
]
settle-keeps k t (err e) = inl refl
settle-keeps k t panic = inl refl

-- A blocking client that has a connection keeps it, whatever one try of an exchange ends in, or
-- else has none and the error is that a payload is too short for its type.
pub try_exchange-keeps :
    (net : Network) (s : Client) (k : ℕ) (frame : List ℕ) (t : DataType)
    → s.conn ≡ some k
    → let (s', answer) = try_exchange net s frame t in
      (s'.conn ≡ some k) ⊎ ((s'.conn ≡ none) × IsTooShort answer)
unfolding try_exchange try_exchange_on
try_exchange-keeps net s k frame t e = rw e (settle-keeps k t (converse (net s.turn) k frame))

-- The peer has closed the connection `k`, from any turn on: nothing fails, and each read gives
-- the end of the stream.
abbrev pub IsClosed : Network → ℕ → Type 0
IsClosed net k =
    (n : ℕ) (frame : List ℕ)
    → ((net n).set_read_timeout k ≡ done 0)
      × ((net n).set_write_timeout k ≡ done 0)
      × ((net n).write_all k frame ≡ done 0)
      × ((net n).reads k frame ≡ done [] ∷ [])

module _ (net : Network) (k : ℕ) (frame : List ℕ) (t : DataType) (closed : IsClosed net k) where
  converse-IsClosed : (n : ℕ) → converse (net n) k frame ≡ err RctError.timeout
  unfolding converse receive
  converse-IsClosed n =
      let (reading, writing, written, ended) = closed n frame in
      rw (reading, writing, written, ended) refl

  try_exchange-IsClosed :
      (s : Client)
      → s.conn ≡ some k
      → let (s', answer) = try_exchange net s frame t in
        (s'.conn ≡ some k) × (answer ≡ err RctError.timeout)
  unfolding try_exchange try_exchange_on settle
  try_exchange-IsClosed s e = rw (e, connection, converse-IsClosed s.turn) (refl, refl)

-- The blocking client has a connection whose peer has closed it: nothing fails on it, and every
-- read gives the end of the stream. However many retries it has, an exchange answers with a
-- timeout, and the client still has this connection.
pub exchange-IsClosed :
    (net : Network) (retries : ℕ) (s : Client) (k : ℕ) (frame : List ℕ) (t : DataType)
    → s.conn ≡ some k
    → IsClosed net k
    → let (s', answer) = exchange net retries s frame t in
      (s'.conn ≡ some k) × (answer ≡ err RctError.timeout)
exchange-IsClosed net retries s k frame t e closed =
    exchange-holds (try_exchange net) retries (λ s'. s'.conn ≡ some k)
      (λ s' answer. (s'.conn ≡ some k) × (answer ≡ err RctError.timeout)) (λ s' x h. h.0) frame t
      (try_exchange-IsClosed net k frame t closed) s e

-- Each exchange of the blocking client takes one turn.
pub try_exchange-Counts : (net : Network) → Counts Client (try_exchange net) (λ s. s.turn)
unfolding try_exchange
try_exchange-Counts net s frame t = refl
