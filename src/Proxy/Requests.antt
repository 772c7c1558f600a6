-- ===== src/Proxy/Requests.antt =====
-- Which requests a session of the proxy forwards.
use rctpower_protocol.Base.{ℕ, ◌≡◌, refl, sym, ap, ◌∙◌, arith, none}
use rctpower_protocol.Base.{some, List, [], ◌∷◌, ◌++◌}
use rctpower_protocol.Base.{append_assoc, append-nil, Option-cases, inl, inr}
use mathlib.Core.Path.{ap₂}
use rctpower_protocol.Error.{Result}
use rctpower_protocol.Frame.Receive.{ReceiveFrame}
use rctpower_protocol.Proxy.{World, Upstream, Session, Heard, nothing, request, desync, died}
use rctpower_protocol.Proxy.{hear}
use rctpower_protocol.Proxy.{Ending, deliver, serve_byte, serve_bytes, exchange}
use rctpower_protocol.Proxy.{Turn}

-- The request that a byte completes, in a list.
abbrev pub completed : Heard → List (List ℕ)
completed nothing = []
completed desync = []
completed died = []
completed (request wire) = wire ∷ []

-- The requests in a stream of bytes, by the parser alone.
unfoldable pub requests : ReceiveFrame → List ℕ → List (List ℕ)
requests rx [] = []
requests rx (c ∷ cs) = let (rx', heard) = hear rx c in completed heard ++ requests rx' cs

-- The parser behind a stream of bytes.
unfoldable pub parser_after : ReceiveFrame → List ℕ → ReceiveFrame
parser_after rx [] = rx
parser_after rx (c ∷ cs) = parser_after (hear rx c).0 cs

deliver_keeps :
    (turn : Turn) (s : Session) (answer : Result (List ℕ))
    → ((deliver turn s answer).rx ≡ s.rx) × ((deliver turn s answer).forwarded ≡ s.forwarded)
unfolding deliver
deliver_keeps turn s answer = (ground arith, ground arith)

pub data View (h : Heard) : Type 0 where
  is_nothing : h ≡ nothing → View h
  is_desync : h ≡ desync → View h
  is_died : h ≡ died → View h
  is_request : (wire : List ℕ) → h ≡ request wire → View h

pub view : (h : Heard) → View h
view nothing = is_nothing refl
view desync = is_desync refl
view died = is_died refl
view (request wire) = is_request wire refl

-- A byte completes what the parser says, whatever comes of the exchange.
pub serve_byte-forwarded :
    (world : World) (up : Upstream) (s : Session) (c : ℕ)
    → let (up', s') = serve_byte world up s c in
      let (rx', heard) = hear s.rx c in
      (s'.rx ≡ rx') × (s'.forwarded ≡ s.forwarded ++ completed heard)
unfolding serve_byte
serve_byte-forwarded world up s c =
    let rx' = (hear s.rx c).0 in
    let alone : s.forwarded ++ [] ≡ s.forwarded = append-nil s.forwarded in
    elim (view (hear s.rx c).1) [
      | is_nothing e ↦ (rw (e, serve_byte) refl, rw (e, serve_byte) (sym alone))
      | is_desync e ↦ (rw (e, serve_byte) refl, rw (e, serve_byte) (sym alone))
      | is_died e ↦ (rw (e, serve_byte) refl, rw (e, serve_byte) (sym alone))
      | is_request wire e ↦
          let sent = record s { rx = rx'; forwarded = s.forwarded ++ (wire ∷ []) } in
          let (same_rx, same_forwarded) =
            deliver_keeps (world up.turn) sent (exchange world up wire).1 in
          (rw (e, serve_byte) same_rx, rw (e, serve_byte) same_forwarded)
    ]

-- A byte does not bring a session that has ended back, so that one that goes on went on before.
pub serve_bytes_ended :
    (world : World) (up : Upstream) (s : Session) (bytes : List ℕ) (x : Ending)
    → s.ending ≡ some x
    → serve_bytes world up s bytes ≡ (up, s)
unfolding serve_bytes
serve_bytes_ended world up s [] x e = refl
serve_bytes_ended world up s (c ∷ cs) x e = ground arith

pub serve_bytes_open :
    (world : World) (up : Upstream) (s : Session) (c : ℕ) (cs : List ℕ)
    → s.ending ≡ none
    → let (up', s') = serve_byte world up s c in
      serve_bytes world up s (c ∷ cs) ≡ serve_bytes world up' s' cs
unfolding serve_bytes
serve_bytes_open world up s c cs e = ground arith

-- A session that still goes on after some bytes has forwarded the requests in them, in their
-- order, and its parser stands where these bytes leave it, whatever has come from upstream.
pub serve_bytes-requests :
    (world : World) (bytes : List ℕ) (up : Upstream) (s : Session)
    → (serve_bytes world up s bytes).1.ending ≡ none
    → let (up', s') = serve_bytes world up s bytes in
      (s'.rx ≡ parser_after s.rx bytes) × (s'.forwarded ≡ s.forwarded ++ requests s.rx bytes)
unfolding serve_bytes requests parser_after
serve_bytes-requests world [] up s h = (refl, sym (append-nil s.forwarded))
serve_bytes-requests world (c ∷ cs) up s h = elim (Option-cases s.ending) [
  | inr (x, e) ↦
      let ended = ap (λ p. p.1.ending) (serve_bytes_ended world up s (c ∷ cs) x e) ∙ e in
      absurd (cc (sym h ∙ ended))
  | inl e ↦
      let (up1, s1) = serve_byte world up s c in
      let (rx', heard) = hear s.rx c in
      let first = serve_bytes_open world up s c cs e in
      let (same_rx, same_forwarded) = serve_byte-forwarded world up s c in
      let (later_rx, later_forwarded) =
        serve_bytes-requests world cs up1 s1 (ap (λ p. p.1.ending) (sym first) ∙ h) in
      (
        ap (λ p. p.1.rx) first ∙ later_rx ∙ ap (λ r. parser_after r cs) same_rx,
        ap (λ p. p.1.forwarded) first
            ∙ later_forwarded
            ∙ ap₂ (λ f r. f ++ requests r cs) same_forwarded same_rx
            ∙ append_assoc s.forwarded (completed heard) (requests rx' cs),
      )
]
