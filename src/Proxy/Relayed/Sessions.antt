-- ===== src/Proxy/Relayed/Sessions.antt =====
-- The sessions of the proxy of src/proxy.rs, and what they have passed on.
use rctpower_protocol.Base.{ℕ, ◌≡◌, refl, ap}
use rctpower_protocol.Base.{none, some, List, [], ◌∷◌, ◌++◌, inl, inr, All, All-append}
use rctpower_protocol.Base.{subst}
use rctpower_protocol.Error.{Result, ok, err, panic, Result-cases}
use rctpower_protocol.Frame.Receive.{ReceiveFrame, consume}
use rctpower_protocol.Frame.Wire.Again.{IsRunning, new-IsRunning}
use rctpower_protocol.Frame.Wire.Standing.{running, finished}
use rctpower_protocol.Client.Network.{done, failed, io_view, is_done, is_failed}
use rctpower_protocol.Proxy.{World, Turn, Upstream, Session, start, Heard, nothing, request}
use rctpower_protocol.Proxy.{desync}
use rctpower_protocol.Proxy.{died, hear, deliver, serve_byte, exchange}
use rctpower_protocol.Proxy.{closed}
use rctpower_protocol.Proxy.Relayed.{IsWire, IsFinished-IsWire, IsRunning-open, consume-Stands}
use rctpower_protocol.Proxy.Relayed.{exchange-IsWire}
use rctpower_protocol.Proxy.Requests.{view, is_nothing, is_desync, is_died, is_request}
use rctpower_protocol.Proxy.Interleaved.{System, Peer, Reach, Reach-AllPeers}

-- What a byte makes of a running parser, and the request that it completes.
abbrev Relayable : ReceiveFrame × Heard → Type 0
Relayable (rx, nothing) = IsRunning rx
Relayable (rx, desync) = IsRunning rx
Relayable (rx, died) = Unit
Relayable (rx, request w) = IsRunning rx × IsWire w

hear-Relayable : (rx : ReceiveFrame) (c : ℕ) → IsRunning rx → Relayable (hear rx c)
unfolding hear
hear-Relayable rx c u =
    let (r1, answer) = consume rx (c ∷ []) in
    elim (Result-cases answer) [
      | inl (n, held) ↦ elim (consume-Stands rx r1 (c ∷ []) n u (ap (λ a. (r1, a)) held)) [
        | running u1 ↦ rw (held, hear, IsRunning-open r1 u1) u1
        | finished f ↦ rw (held, hear, f.full) (new-IsRunning, IsFinished-IsWire r1 f)
      ]
      | inr (inl (x, held)) ↦ rw (held, hear) new-IsRunning
      | inr (inr held) ↦ rw (held, hear) tt
    ]

-- All that a session has forwarded and replied is frames, and one that goes on has no frame yet.
pub record Relays (s : Session) : Type 0 where
  pub parser : s.ending ≡ none → IsRunning s.rx
  pub requests : All IsWire s.forwarded
  pub answers : All IsWire s.replies

start-Relays : Relays start
start-Relays = record { parser = λ h. new-IsRunning; requests = tt; answers = tt }

deliver-Relays :
    (turn : Turn) (s : Session) (answer : Result (List ℕ))
    → IsRunning s.rx
    → All IsWire s.forwarded
    → All IsWire s.replies
    → ((resp : List ℕ) → answer ≡ ok resp → IsWire resp)
    → Relays (deliver turn s answer)
unfolding deliver
deliver-Relays turn s panic u requests answers whole = record {
  parser = λ h. u;
  requests = requests;
  answers = answers;
}
deliver-Relays turn s (err e) u requests answers whole = record {
  parser = λ h. u;
  requests = requests;
  answers = answers;
}
deliver-Relays turn s (ok resp) u requests answers whole =
    let wire = whole resp refl in
    let longer : All IsWire (s.replies ++ (resp ∷ [])) =
      All-append IsWire s.replies (resp ∷ []) answers (wire, tt) in
    elim (io_view (turn.reply resp)) [
      | is_done n e ↦
          rw (ap (λ p. p.1) wire.received, deliver, e)
            (record { parser = λ h. u; requests = requests; answers = longer })
      | is_failed kind e ↦
          rw (ap (λ p. p.1) wire.received, deliver, e)
            (record { parser = λ h. u; requests = requests; answers = answers })
    ]

-- An answer that `exchange` gave is parsed again for the log without a panic: it is written to the
-- client, and the session goes on unless that write fails.
pub deliver-exchange :
    (world : World) (up : Upstream) (turn : Turn) (s : Session) (w resp : List ℕ)
    → (exchange world up w).1 ≡ ok resp
    → deliver turn s (ok resp) ≡ elim (turn.reply resp) [
      | done n ↦ record s { replies = s.replies ++ (resp ∷ []) }
      | failed kind ↦ record s { ending = some closed }
    ]
unfolding deliver
deliver-exchange world up turn s w resp e =
    let wire = exchange-IsWire world up w resp e in rw (ap (λ p. p.1) wire.received, deliver) refl

serve_byte-Relays :
    (world : World) (up : Upstream) (s : Session) (c : ℕ)
    → s.ending ≡ none
    → Relays s
    → Relays (serve_byte world up s c).1
unfolding serve_byte
serve_byte-Relays world up s c alive f =
    let (rx', heard) = hear s.rx c in
    let good : Relayable (rx', heard) = hear-Relayable s.rx c (f.parser alive) in
    elim (view heard) [
      | is_nothing e ↦
          rw (e, serve_byte)
            (record {
              parser = λ h. subst (λ x. Relayable (rx', x)) e good;
              requests = f.requests;
              answers = f.answers;
            })
      | is_desync e ↦
          rw (e, serve_byte)
            (record {
              parser = λ h. subst (λ x. Relayable (rx', x)) e good;
              requests = f.requests;
              answers = f.answers;
            })
      | is_died e ↦
          rw (e, serve_byte)
            (record { parser = λ h. absurd (cc h); requests = f.requests; answers = f.answers })
      | is_request w e ↦
          let (u, wire) = subst (λ x. Relayable (rx', x)) e good in
          let sent = record s { rx = rx'; forwarded = s.forwarded ++ (w ∷ []) } in
          rw (e, serve_byte)
            (deliver-Relays (world up.turn) sent _ u
              (All-append IsWire s.forwarded (w ∷ []) f.requests (wire, tt)) f.answers
              (exchange-IsWire world up w))
    ]

Reach-Relays :
    {world : World} {t : System} (q : ℕ) (peer : Peer)
    → Reach world t
    → t.peers q ≡ some peer
    → Relays peer.session
Reach-Relays {world} q peer r here =
    Reach-AllPeers (λ p. Relays p.session) start-Relays
      (λ up v c alive f. serve_byte-Relays world up v.session c alive f)
      (λ v e f. record { parser = λ h. absurd (cc h); requests = f.requests; answers = f.answers })
      r q peer here

-- In every reachable state of the proxy, each request that a session has forwarded and each reply
-- that it has written to its client is the bytes of one whole frame with the right checksum, as a
-- new strict parser reads them: no part of a frame, and no corrupted one, is passed on.
pub Reach-IsWire :
    {world : World} {t : System} (q : ℕ) (peer : Peer)
    → Reach world t
    → t.peers q ≡ some peer
    → All IsWire peer.session.forwarded × All IsWire peer.session.replies
Reach-IsWire q peer r here = let f = Reach-Relays q peer r here in (f.requests, f.answers)
