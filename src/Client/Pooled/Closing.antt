-- ===== src/Client/Pooled/Closing.antt =====
-- When the pooled client keeps its connection.
use rctpower_protocol.Base.{ℕ, ◌≡◌, refl, Bool, true, false, Option, none, some, List}
use rctpower_protocol.Base.{Bool-cases, inl, inr}
use rctpower_protocol.Error.{Result, ok, err, panic, Result-cases}
use rctpower_protocol.Types.DataType.{DataType}
use rctpower_protocol.Types.DataValue.{DataValue}
use rctpower_protocol.Client.Retry.Turns.{Counts, exchange-holds}
use rctpower_protocol.Client.Network.{timed, Attempt, Network}
use rctpower_protocol.Client.Pooled.{AsyncClient, try_exchange, try_exchange_on, connection}
use rctpower_protocol.Client.Pooled.{exchange_on, exchange, guarded}

-- How the connection and the lock are left by an exchange: connected by a value, without a
-- connection by an error, poisoned by a panic.
abbrev pub Left : Option ℕ → Bool → Result DataValue → Type 0
Left conn poisoned (ok v) = ((k : ℕ) × (conn ≡ some k)) × (poisoned ≡ false)
Left conn poisoned (err e) = (conn ≡ none) × (poisoned ≡ false)
Left conn poisoned panic = (poisoned ≡ true)

guarded-Left :
    (k : ℕ) (answer : Result DataValue)
    → let (conn, poisoned, answer') = guarded k answer in Left conn poisoned answer'
guarded-Left k (ok v) = ((k, refl), refl)
guarded-Left k (err e) = (refl, refl)
guarded-Left k panic = refl

try_exchange_on-Left :
    (attempt : Attempt) (conn : Option ℕ) (frame : List ℕ) (resp_type : DataType)
    → let (conn', poisoned, answer) = try_exchange_on attempt conn frame resp_type in
      Left conn' poisoned answer
unfolding try_exchange_on connection
try_exchange_on-Left attempt (some k) frame resp_type =
    guarded-Left k (exchange_on attempt k frame resp_type)
try_exchange_on-Left attempt none frame resp_type =
    elim (Result-cases (timed attempt.connect_async)) [
      | inl (k, e) ↦
          rw (e, try_exchange_on) (guarded-Left k (exchange_on attempt k frame resp_type))
      | inr (inl (e, h)) ↦ rw (h, try_exchange_on) (refl, refl)
      | inr (inr e) ↦ rw (e, try_exchange_on) refl
    ]

-- An exchange leaves the client connected with a value, without a connection with an error, and
-- poisoned with a panic: it never keeps a connection on which an exchange failed.
pub try_exchange-Left :
    (net : Network) (s : AsyncClient) (frame : List ℕ) (resp_type : DataType)
    → let (s', answer) = try_exchange net s frame resp_type in Left s'.conn s'.poisoned answer
unfolding try_exchange
try_exchange-Left net s frame resp_type = elim (Bool-cases s.poisoned) [
  | inl e ↦ rw e refl
  | inr e ↦ rw e (try_exchange_on-Left (net s.turn) s.conn frame resp_type)
]

-- In whatever state it starts, an exchange, with all its attempts, leaves the pooled client
-- connected with a value, without a connection with an error, and poisoned with a panic; the lock
-- is not poisoned with a value or an error.
pub exchange-Left :
    (net : Network) (retries : ℕ) (s : AsyncClient) (frame : List ℕ) (resp_type : DataType)
    → let (s', answer) = exchange net retries s frame resp_type in Left s'.conn s'.poisoned answer
exchange-Left net retries s frame resp_type =
    exchange-holds (try_exchange net) retries (λ s'. Unit {0}) (λ s'. Left s'.conn s'.poisoned)
      (λ s' e h. tt) frame resp_type (λ s' p. try_exchange-Left net s' frame resp_type) s tt

-- Each exchange of the pooled client takes one turn.
pub try_exchange-Counts : (net : Network) → Counts AsyncClient (try_exchange net) (λ s. s.turn)
unfolding try_exchange
try_exchange-Counts net s frame t = elim (Bool-cases s.poisoned) [
  | inl e ↦ rw (e, try_exchange) refl
  | inr e ↦ rw (e, try_exchange) refl
]
