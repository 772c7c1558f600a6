-- ===== src/Proxy/Serialized.antt =====
-- The proxy of src/proxy.rs as one sequence of exchanges, however its clients interleave.
pub mod Reached
use rctpower_protocol.Base.{ℕ, ◌+◌, ◌≡◌, ◌≢◌, refl, sym, ap, ◌∙◌, arith, Bool, true, false}
use rctpower_protocol.Base.{Option, none, some, List, [], ◌∷◌, ◌++◌}
use rctpower_protocol.Base.{append-nil, append_assoc, Bool-cases, inl, inr, ◌==◌, if◌then◌else◌}
use rctpower_protocol.Base.{some-injective, subst}
use mathlib.Core.Path.{ap₂}
use rctpower_protocol.Error.{Result, ok, err, panic, Result-cases}
use rctpower_protocol.Client.Network.{done}
use rctpower_protocol.Proxy.{World, Turn, Upstream, Session, Heard, nothing, request, desync}
use rctpower_protocol.Proxy.{died}
use rctpower_protocol.Proxy.{hear, deliver, serve_byte, exchange}
use rctpower_protocol.Proxy.Requests.{completed, view, is_nothing, is_desync, is_died, is_request}
use rctpower_protocol.Proxy.Requests.{serve_byte-forwarded}
use rctpower_protocol.Proxy.Surviving.{TakesReplies}
use rctpower_protocol.Proxy.Relayed.Sessions.{deliver-exchange}
use rctpower_protocol.Proxy.Interleaved.{System, Peer, Step, Reach, begin, later, stops, accepts}
use rctpower_protocol.Proxy.Interleaved.{takes}
use rctpower_protocol.Proxy.Interleaved.{leaves, breaks, initial, update, accepted, served, ended}

-- Requests, each with its client, in the order of their exchanges.
abbrev pub Log : Type 0
Log = List (ℕ × List ℕ)

-- The exchanges, one after another.
abbrev pub run : World → Upstream → Log → Upstream
run world up [] = up
run world up ((p, w) ∷ log) = run world (exchange world up w).0 log

-- The requests of one client.
abbrev pub requests_of : ℕ → Log → List (List ℕ)
requests_of q [] = []
requests_of q ((p, w) ∷ log) = let rest = requests_of q log in if p == q then w ∷ rest else rest

abbrev pub given : Result (List ℕ) → List (List ℕ)
given (ok resp) = resp ∷ []
given _ = []

-- The answers to the requests of one client, those that are no error.
abbrev pub answers_of : World → Upstream → ℕ → Log → List (List ℕ)
answers_of world up q [] = []
answers_of world up q ((p, w) ∷ log) =
    let (up', answer) = exchange world up w in
    let rest = answers_of world up' q log in if p == q then given answer ++ rest else rest

abbrev pub tagged : ℕ → List (List ℕ) → Log
tagged p [] = []
tagged p (w ∷ ws) = (p, w) ∷ tagged p ws

-- The requests that the steps of a run complete.
abbrev pub log_of : {world : World} {t : System} → Reach world t → Log
log_of begin = []
log_of (later r (accepts t p going free)) = log_of r
log_of (later r (stops t going)) = log_of r
log_of (later r (takes t p c peer here alive)) =
    log_of r ++ tagged p (completed (hear peer.session.rx c).1)
log_of (later r (leaves t p peer here alive)) = log_of r
log_of (later r (breaks t p peer kind here alive)) = log_of r

pub run-append :
    (world : World) (log log' : Log) (up : Upstream)
    → run world up (log ++ log') ≡ run world (run world up log) log'
run-append world [] log' up = refl
run-append world ((p, w) ∷ log) log' up = run-append world log log' (exchange world up w).0

pub requests_of-append :
    (q : ℕ) (log log' : Log) → requests_of q (log ++ log') ≡ requests_of q log ++ requests_of q log'
requests_of-append q [] log' = refl
requests_of-append q ((p, w) ∷ log) log' = elim (Bool-cases (p == q)) [
  | inl e ↦ rw e (ap (λ ws. w ∷ ws) (requests_of-append q log log'))
  | inr e ↦ rw e (requests_of-append q log log')
]

pub answers_of-append :
    (world : World) (q : ℕ) (log log' : Log) (up : Upstream)
    → answers_of world up q (log ++ log')
      ≡ answers_of world up q log ++ answers_of world (run world up log) q log'
answers_of-append world q [] log' up = refl
answers_of-append world q ((p, w) ∷ log) log' up =
    let (up', answer) = exchange world up w in
    let rest = answers_of-append world q log log' up' in
    elim (Bool-cases (p == q)) [
      | inl e ↦ rw e (
          ap (λ ws. given answer ++ ws) rest
          ∙ sym (append_assoc (given answer) (answers_of world up' q log) _))
      | inr e ↦ rw e rest
    ]

-- The requests of a client that is another, and of the client itself.
pub requests_of-tagged : (p : ℕ) (ws : List (List ℕ)) → requests_of p (tagged p ws) ≡ ws
requests_of-tagged p [] = refl
requests_of-tagged p (w ∷ ws) =
    let same : (p == p) ≡ true = ground arith in
    rw same (ap (λ vs. w ∷ vs) (requests_of-tagged p ws))

pub requests_of_other :
    (p q : ℕ) (ws : List (List ℕ)) → (p == q) ≡ false → requests_of q (tagged p ws) ≡ []
requests_of_other p q [] e = refl
requests_of_other p q (w ∷ ws) e = rw e (requests_of_other p q ws e)

pub answers_of_other :
    (world : World) (p q : ℕ) (ws : List (List ℕ)) (up : Upstream)
    → (p == q) ≡ false
    → answers_of world up q (tagged p ws) ≡ []
answers_of_other world p q [] up e = refl
answers_of_other world p q (w ∷ ws) up e =
    rw e (answers_of_other world p q ws (exchange world up w).0 e)
