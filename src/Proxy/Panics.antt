-- ===== src/Proxy/Panics.antt =====
-- Where the proxy of src/proxy.rs panics: in the parser, on the bytes of a client, on what is read
-- from upstream, or on the answer that is parsed for the log.
use rctpower_protocol.Base.{ℕ, ◌≡◌, ◌≢◌, inl, inr, false, Bool-cases}
use rctpower_protocol.Base.{Option, none, some, List, [], ◌∷◌}
use rctpower_protocol.Error.{ok, panic, Result-cases}
use rctpower_protocol.Frame.Receive.{ReceiveFrame, new, consume}
use rctpower_protocol.Client.Network.{Io, done, failed, timed}
use rctpower_protocol.Proxy.{World, Turn, Upstream, Session, hear, died, request, connection}
use rctpower_protocol.Proxy.{receive, exchange, exchange_on, serve_byte}
use rctpower_protocol.Client.Pooled

-- One of these reads makes a parser panic that stands at `rx` before them.
pub data ReadsPanic : ReceiveFrame → List (Io (List ℕ)) → Type 0 where
  here :
      (rx : ReceiveFrame) (b : ℕ) (bytes : List ℕ) (events : List (Io (List ℕ)))
      → (consume rx (b ∷ bytes)).1 ≡ panic
      → ReadsPanic rx (done (b ∷ bytes) ∷ events)
  later :
      (rx : ReceiveFrame) (b : ℕ) (bytes : List ℕ) (events : List (Io (List ℕ)))
      → ReadsPanic (consume rx (b ∷ bytes)).0 events
      → ReadsPanic rx (done (b ∷ bytes) ∷ events)

receive-ReadsPanic :
    (events : List (Io (List ℕ))) (rx : ReceiveFrame)
    → receive rx events ≡ panic
    → ReadsPanic rx events
unfolding Pooled.receive
receive-ReadsPanic [] rx e = elim (Bool-cases rx.complete) [
  | inl full ↦ absurd (cc (rw (full, Pooled.receive) at e))
  | inr waits ↦ absurd (cc (rw (waits, Pooled.receive) at e))
]
receive-ReadsPanic (done [] ∷ events) rx e = elim (Bool-cases rx.complete) [
  | inl full ↦ absurd (cc (rw (full, Pooled.receive) at e))
  | inr waits ↦ absurd (cc (rw (waits, Pooled.receive) at e))
]
receive-ReadsPanic (done (b ∷ bytes) ∷ events) rx e = elim (Bool-cases rx.complete) [
  | inl full ↦ absurd (cc (rw (full, Pooled.receive) at e))
  | inr waits ↦ elim (Result-cases (consume rx (b ∷ bytes)).1) [
    | inl (n, h) ↦
        later rx b bytes events (
          receive-ReadsPanic events (consume rx (b ∷ bytes)).0 (rw (waits, h, Pooled.receive) at e))
    | inr (inl (x, h)) ↦ absurd (cc (rw (waits, h, Pooled.receive) at e))
    | inr (inr h) ↦ here rx b bytes events h
  ]
]
receive-ReadsPanic (failed kind ∷ events) rx e = elim (Bool-cases rx.complete) [
  | inl full ↦ absurd (cc (rw (full, Pooled.receive) at e))
  | inr waits ↦ absurd (cc (rw (waits, Pooled.receive) at e))
]

-- The upstream connection is there or is made, and what is read from it makes the parser panic.
pub record ExchangePanics (turn : Turn) (conn : Option ℕ) (wire : List ℕ) : Type 0 where
  pub socket : ℕ
  pub connected : connection turn conn ≡ ok socket
  pub read : ReadsPanic (new false) (turn.reads socket wire)

-- A session goes on until one of its bytes makes the parser panic, in one of these three places.
pub data Panicked (world : World) : Upstream → Session → List ℕ → Type 0 where
  at_byte :
      (up : Upstream) (s : Session) (c : ℕ) (cs : List ℕ)
      → (consume s.rx (c ∷ [])).1 ≡ panic
      → Panicked world up s (c ∷ cs)
  at_exchange :
      (up : Upstream) (s : Session) (c : ℕ) (cs wire : List ℕ)
      → (hear s.rx c).1 ≡ request wire
      → ExchangePanics (world up.turn) up.conn wire
      → Panicked world up s (c ∷ cs)
  at_log :
      (up : Upstream) (s : Session) (c : ℕ) (cs wire resp : List ℕ)
      → (hear s.rx c).1 ≡ request wire
      → (exchange world up wire).1 ≡ ok resp
      → (consume (new false) resp).1 ≡ panic
      → Panicked world up s (c ∷ cs)
  after :
      (up : Upstream) (s : Session) (c : ℕ) (cs : List ℕ)
      → s.ending ≡ none
      → Panicked world (serve_byte world up s c).0 (serve_byte world up s c).1 cs
      → Panicked world up s (c ∷ cs)

pub hear-died : (rx : ReceiveFrame) (c : ℕ) → (hear rx c).1 ≡ died → (consume rx (c ∷ [])).1 ≡ panic
unfolding hear
hear-died rx c h = elim (Result-cases (consume rx (c ∷ [])).1) [
  | inl (n, e) ↦ elim (Bool-cases (consume rx (c ∷ [])).0.complete) [
    | inl full ↦ absurd (cc (rw (e, full, hear) at h))
    | inr waits ↦ absurd (cc (rw (e, waits, hear) at h))
  ]
  | inr (inl (x, e)) ↦ absurd (cc (rw (e, hear) at h))
  | inr (inr e) ↦ e
]

timed-no_panic : {A : Type 0} (a : Option (Io A)) → timed a ≢ panic
timed-no_panic none e = cc
timed-no_panic (some (done x)) e = cc
timed-no_panic (some (failed kind)) e = cc

connection-no_panic : (turn : Turn) (conn : Option ℕ) → connection turn conn ≢ panic
unfolding connection
connection-no_panic turn (some k) e = cc
connection-no_panic turn none e = timed-no_panic (some turn.connect) e

-- Writing and the clock do not panic.
exchange_on-ReadsPanic :
    (turn : Turn) (k : ℕ) (wire : List ℕ)
    → exchange_on turn k wire ≡ panic
    → ReadsPanic (new false) (turn.reads k wire)
unfolding exchange_on
exchange_on-ReadsPanic turn k wire h = elim (Result-cases (timed (turn.write_all k wire))) [
  | inr (inr e) ↦ absurd (timed-no_panic (turn.write_all k wire) e)
  | inr (inl (x, e)) ↦ absurd (cc (rw (e, exchange_on) at h))
  | inl (n, e) ↦ elim (Result-cases (receive (new false) (turn.reads k wire))) [
    | inl (r, got) ↦ absurd (cc (rw (e, got, exchange_on) at h))
    | inr (inl (x, got)) ↦ absurd (cc (rw (e, got, exchange_on) at h))
    | inr (inr got) ↦ receive-ReadsPanic (turn.reads k wire) (new false) got
  ]
]

pub exchange-ExchangePanics :
    (world : World) (up : Upstream) (wire : List ℕ)
    → (exchange world up wire).1 ≡ panic
    → ExchangePanics (world up.turn) up.conn wire
unfolding exchange
exchange-ExchangePanics world up wire h = elim (Result-cases (connection (world up.turn) up.conn)) [
  | inl (k, e) ↦ record {
    socket = k;
    connected = e;
    read = exchange_on-ReadsPanic (world up.turn) k wire (rw (e, exchange) at h);
  }
  | inr (inl (x, e)) ↦ absurd (cc (rw (e, exchange) at h))
  | inr (inr e) ↦ absurd (connection-no_panic (world up.turn) up.conn e)
]
