-- ===== src/Proxy/Relayed.antt =====
-- What goes through the proxy of src/proxy.rs in both directions: the bytes of whole frames.
pub mod Sessions
use rctpower_protocol.Base.{ℕ, ◌+◌, ◌≡◌, refl, sym, ap, ◌∙◌, arith, Bool, true, false, Option}
use rctpower_protocol.Base.{none, some, List, [], ◌∷◌, ◌++◌, ◌==◌, inl, inr, All, All-append}
use rctpower_protocol.Base.{if◌then◌else◌, Bool-cases, Option-cases, length, subst}
use rctpower_protocol.Base.{some-injective}
use rctpower_protocol.Error.{RctError, Result, ok, err, panic, Result-cases, ok-injective}
use rctpower_protocol.Frame.Receive.{ReceiveFrame, new, consume, consume_loop}
use rctpower_protocol.Frame.Checked.{waits, sum_is_right}
use rctpower_protocol.Frame.Wire.{IsUnescaped}
use rctpower_protocol.Frame.Wire.Again.{IsRunning, new-IsRunning, Replays}
use rctpower_protocol.Frame.Wire.Standing.{IsFinished, Stands, running, finished}
use rctpower_protocol.Frame.Wire.Standing.{consume_loop-Stands}
use rctpower_protocol.Client.Network.{Io, done, failed, timed, io_view, is_done, is_failed}
use rctpower_protocol.Client.Pooled
use rctpower_protocol.Client.Pooled.Answer.{receive-Receives}
use rctpower_protocol.Proxy.{World, Turn, Upstream, Session, start, Heard, nothing, request}
use rctpower_protocol.Proxy.{desync}
use rctpower_protocol.Proxy.{died, hear, Ending, deliver, serve_byte, exchange, exchange_on}
use rctpower_protocol.Proxy.{connection}
use rctpower_protocol.Proxy.{receive, closed}
use rctpower_protocol.Proxy.Requests.{view, is_nothing, is_desync, is_died, is_request}
use rctpower_protocol.Proxy.Interleaved.{System, Peer, Reach, Reach-AllPeers, accepted, served}
use rctpower_protocol.Proxy.Interleaved.{ended}

-- The bytes of a frame, no more and no less: a new strict parser takes all of them and then has a
-- frame with the checksum of its bytes, and these bytes in `raw`, unescaped in `buffer`.
pub record IsWire (w : List ℕ) : Type 0 where
  pub parser : ReceiveFrame
  pub received : consume (new false) w ≡ (parser, ok (length w))
  pub full : parser.complete ≡ true
  pub right : sum_is_right parser ≡ true
  pub unescaped : IsUnescaped parser
  pub stored : parser.raw ≡ w

pub IsFinished-IsWire : (r : ReceiveFrame) → IsFinished r → IsWire r.raw
unfolding consume sum_is_right
IsFinished-IsWire r f = record {
  parser = record r { consumed_bytes = length r.raw };
  received = f.again;
  full = f.full;
  right = f.right;
  unescaped = record {
    text = f.unescaped.text;
    flag = f.unescaped.flag;
    token = f.unescaped.token;
  };
  stored = refl;
}

-- A running parser has no frame.
pub IsRunning-open : (r : ReceiveFrame) → IsRunning r → r.complete ≡ false
IsRunning-open r u = let strict = u.strict in ground arith

pub consume-Stands :
    (r r' : ReceiveFrame) (bytes : List ℕ) (n : ℕ)
    → IsRunning r
    → consume r bytes ≡ (r', ok n)
    → Stands r'
unfolding consume
consume-Stands r r' bytes n u e = consume_loop-Stands bytes r r' 0 n u e

receive_failed :
    (rx : ReceiveFrame) (b : ℕ) (bytes : List ℕ) (events : List (Io (List ℕ))) (x : RctError)
    → rx.complete ≡ false
    → (consume rx (b ∷ bytes)).1 ≡ err x
    → receive rx (done (b ∷ bytes) ∷ events) ≡ err x
unfolding Pooled.receive
receive_failed rx b bytes events x waiting held = ground arith

receive_panicked :
    (rx : ReceiveFrame) (b : ℕ) (bytes : List ℕ) (events : List (Io (List ℕ)))
    → rx.complete ≡ false
    → (consume rx (b ∷ bytes)).1 ≡ panic
    → receive rx (done (b ∷ bytes) ∷ events) ≡ panic
unfolding Pooled.receive
receive_panicked rx b bytes events waiting held = ground arith

-- The loop that reads from upstream ends with a frame only.
receive-IsWire :
    (events : List (Io (List ℕ))) (rx r : ReceiveFrame)
    → Stands rx
    → receive rx events ≡ ok r
    → IsWire r.raw
unfolding Pooled.receive
receive-IsWire events rx r (finished f) e =
    let same : rx ≡ r =
      ok-injective rx r (sym (receive-Receives.on_complete rx events f.full) ∙ e) in
    subst (λ p. IsWire p.raw) same (IsFinished-IsWire rx f)
receive-IsWire [] rx r (running u) e =
    let waiting = IsRunning-open rx u in absurd (cc (rw waiting at e))
receive-IsWire (done [] ∷ events) rx r (running u) e =
    let waiting = IsRunning-open rx u in absurd (cc (rw waiting at e))
receive-IsWire (failed kind ∷ events) rx r (running u) e =
    let waiting = IsRunning-open rx u in absurd (cc (rw waiting at e))
receive-IsWire (done (b ∷ bytes) ∷ events) rx r (running u) e =
    let waiting = IsRunning-open rx u in
    let (r1, answer) = consume rx (b ∷ bytes) in
    elim (Result-cases answer) [
      | inl (n, held) ↦
          let read : consume rx (b ∷ bytes) ≡ (r1, ok n) = ap (λ a. (r1, a)) held in
          receive-IsWire events r1 r (consume-Stands rx r1 (b ∷ bytes) n u read)
            (sym (receive-Receives.on_bytes rx r1 b bytes n events waiting read) ∙ e)
      | inr (inl (x, held)) ↦
          absurd (cc (sym (receive_failed rx b bytes events x waiting held) ∙ e))
      | inr (inr held) ↦ absurd (cc (sym (receive_panicked rx b bytes events waiting held) ∙ e))
    ]

exchange_on-IsWire :
    (turn : Turn) (k : ℕ) (w resp : List ℕ) → exchange_on turn k w ≡ ok resp → IsWire resp
unfolding exchange_on
exchange_on-IsWire turn k w resp e = elim (Result-cases (timed (turn.write_all k w))) [
  | inl (n, written) ↦ elim (Result-cases (receive (new false) (turn.reads k w))) [
    | inl (r, read) ↦
        subst IsWire (ok-injective r.raw resp (rw (written, exchange_on, read) at e))
          (receive-IsWire (turn.reads k w) (new false) r (running new-IsRunning) read)
    | inr (inl (x, read)) ↦ absurd (cc (rw (written, exchange_on, read) at e))
    | inr (inr read) ↦ absurd (cc (rw (written, exchange_on, read) at e))
  ]
  | inr (inl (x, written)) ↦ absurd (cc (rw (written) at e))
  | inr (inr written) ↦ absurd (cc (rw (written) at e))
]

pub exchange-IsWire :
    (world : World) (up : Upstream) (w resp : List ℕ)
    → (exchange world up w).1 ≡ ok resp
    → IsWire resp
unfolding exchange
exchange-IsWire world up w resp e = elim (Result-cases (connection (world up.turn) up.conn)) [
  | inl (k, opened) ↦
      exchange_on-IsWire (world up.turn) k w resp (rw (exchange, opened, exchange) at e)
  | inr (inl (x, opened)) ↦ absurd (cc (rw (exchange, opened, exchange) at e))
  | inr (inr opened) ↦ absurd (cc (rw (exchange, opened, exchange) at e))
]
