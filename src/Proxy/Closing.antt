-- ===== src/Proxy/Closing.antt =====
-- When the proxy keeps its upstream connection.
use rctpower_protocol.Base.{ℕ, ◌≡◌, refl, Option, none, some, List, inl, inr}
use rctpower_protocol.Error.{Result, ok, err, panic, Result-cases}
use rctpower_protocol.Client.Network.{io}
use rctpower_protocol.Proxy.{World, Upstream, exchange, exchange_on, connection, kept}

-- How the connection is left by an answer.
abbrev pub Left : Option ℕ → Result (List ℕ) → Type 0
Left conn (ok wire) = (k : ℕ) × (conn ≡ some k)
Left conn (err e) = (conn ≡ none)
Left conn panic = Unit {0}

kept-Left : (k : ℕ) (answer : Result (List ℕ)) → Left (kept k answer) answer
kept-Left k (ok wire) = (k, refl)
kept-Left k (err e) = refl
kept-Left k panic = tt

exchange_from :
    (world : World) (turn : ℕ) (conn : Option ℕ) (wire : List ℕ)
    → let (up', answer) = exchange world (record { conn = conn; turn = turn }) wire in
      Left up'.conn answer
unfolding exchange connection
exchange_from world turn (some k) wire = kept-Left k (exchange_on (world turn) k wire)
exchange_from world turn none wire = elim (Result-cases (io (world turn).connect)) [
  | inl (k, e) ↦ rw (e, exchange) (kept-Left k (exchange_on (world turn) k wire))
  | inr (inl (x, e)) ↦ rw (e, exchange) refl
  | inr (inr e) ↦ rw (e, exchange) tt
]

-- An exchange of the proxy leaves the upstream connection open with an answer, and closed with an
-- error, so that the next one connects anew.
pub exchange-Left_upstream :
    (world : World) (up : Upstream) (wire : List ℕ)
    → let (up', answer) = exchange world up wire in Left up'.conn answer
exchange-Left_upstream world up wire = exchange_from world up.turn up.conn wire
