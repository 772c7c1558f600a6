-- ===== src/Proxy/Surviving.antt =====
-- What ends a session of the proxy.
use rctpower_protocol.Base.{ℕ, ◌≡◌, refl, ◌⊎◌, inl, inr, false}
use rctpower_protocol.Base.{none, some}
use rctpower_protocol.Base.{List, [], ◌∷◌, ◌++◌, ◌≢◌, All, map, flatten}
use rctpower_protocol.Error.{Result-cases}
use rctpower_protocol.Frame.Receive.{new, consume}
use rctpower_protocol.Client.Network.{done}
use rctpower_protocol.Proxy.{World, request, Upstream, Session, crashed}
use rctpower_protocol.Proxy.{hear, exchange, deliver, serve_byte, serve_bytes}
use rctpower_protocol.Proxy.{serve_client}
use rctpower_protocol.Proxy.Pieces.{serve_client-pieces}
use rctpower_protocol.Proxy.Panics.{Panicked, at_byte, at_exchange, at_log, after}
use rctpower_protocol.Proxy.Panics.{hear-died, exchange-ExchangePanics}
use rctpower_protocol.Proxy.Requests.{serve_bytes_open, serve_bytes_ended, view, is_nothing}
use rctpower_protocol.Proxy.Requests.{is_desync, is_died, is_request}

-- The client takes every answer.
abbrev pub TakesReplies : World → Type 0
TakesReplies world = (t : ℕ) (resp : List ℕ) → (world t).reply resp ≡ done 0

-- The session goes on; or it has crashed, and the parser has panicked on the way.
abbrev pub Survives : World → Upstream → Session → List ℕ → Session → Type 0
Survives world up s bytes s' =
    (s'.ending ≡ none) ⊎ ((s'.ending ≡ some crashed) × Panicked world up s bytes)

module _ (world : World) (taken : TakesReplies world) where
  deliver-Survives :
      (up : Upstream) (s sent : Session) (c : ℕ) (cs wire : List ℕ)
      → (hear s.rx c).1 ≡ request wire
      → sent.ending ≡ none
      → Survives world up s (c ∷ cs) (deliver (world up.turn) sent (exchange world up wire).1)
  unfolding deliver
  deliver-Survives up s sent c cs wire heard h = elim (Result-cases (exchange world up wire).1) [
    | inl (resp, e) ↦ elim (Result-cases (consume (new false) resp).1) [
      | inl (n, p) ↦ rw (e, deliver, p, taken up.turn resp) (inl h)
      | inr (inl (x, p)) ↦ rw (e, deliver, p, taken up.turn resp) (inl h)
      | inr (inr p) ↦ rw (e, deliver, p) (inr (refl, at_log up s c cs wire resp heard e p))
    ]
    | inr (inl (x, e)) ↦ rw (e, deliver) (inl h)
    | inr (inr e) ↦
        rw (e, deliver)
          (inr (refl, at_exchange up s c cs wire heard (exchange-ExchangePanics world up wire e)))
  ]

  serve_byte-Survives :
      (up : Upstream) (s : Session) (c : ℕ) (cs : List ℕ)
      → s.ending ≡ none
      → Survives world up s (c ∷ cs) (serve_byte world up s c).1
  unfolding serve_byte
  serve_byte-Survives up s c cs h = elim (view (hear s.rx c).1) [
    | is_nothing e ↦ rw (e, serve_byte) (inl h)
    | is_desync e ↦ rw (e, serve_byte) (inl h)
    | is_died e ↦ rw (e, serve_byte) (inr (refl, at_byte up s c cs (hear-died s.rx c e)))
    | is_request wire e ↦
        let sent = record s { rx = (hear s.rx c).0; forwarded = s.forwarded ++ (wire ∷ []) } in
        rw (e, serve_byte) (deliver-Survives up s sent c cs wire e h)
  ]

  serve_bytes-Survives :
      (bytes : List ℕ) (up : Upstream) (s : Session)
      → s.ending ≡ none
      → Survives world up s bytes (serve_bytes world up s bytes).1
  unfolding serve_bytes
  serve_bytes-Survives [] up s h = inl h
  serve_bytes-Survives (c ∷ cs) up s h =
      let (up1, s1) = serve_byte world up s c in
      rw (serve_bytes_open world up s c cs h) (elim (serve_byte-Survives up s c cs h) [
        | inl goes_on ↦ elim (serve_bytes-Survives cs up1 s1 goes_on) [
          | inl e ↦ inl e
          | inr (e, later) ↦ inr (e, after up s c cs h later)
        ]
        | inr (e, now) ↦ rw (serve_bytes_ended world up1 s1 cs crashed e) (inr (e, now))
      ])

-- A session that goes on gets bytes in any number of reads, none of them empty, and the client
-- takes every reply. Then the session goes on, or it has crashed and on the way the parser has
-- panicked: on a byte of the client, on a read from upstream, or on an answer that is parsed for
-- the log. So no error of the parser ends it, and no error of connecting, writing, reading or time
-- upstream.
pub serve_client-Survives :
    (world : World) (up : Upstream) (s : Session) (chunks : List (List ℕ))
    → TakesReplies world
    → All (λ c. c ≢ []) chunks
    → s.ending ≡ none
    → Survives world up s (flatten chunks) (serve_client world up s (map done chunks)).1
serve_client-Survives world up s chunks taken some_bytes h =
    rw (serve_client-pieces world chunks up s some_bytes)
      (serve_bytes-Survives world taken (flatten chunks) up s h)
