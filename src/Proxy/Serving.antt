-- ===== src/Proxy/Serving.antt =====
-- Sessions of the proxy on the frames of a client.
use rctpower_protocol.Base.{ℕ, ◌≡◌, ◌≢◌, refl, sym, ap, ◌∙◌, arith, false}
use rctpower_protocol.Base.{none, some}
use rctpower_protocol.Base.{List, [], ◌∷◌, ◌++◌, append-nil, append_assoc}
use rctpower_protocol.Base.{All, map}
use rctpower_protocol.Base.{flatten, Option-cases, inl, inr}
use mathlib.Core.Path.{ap₂}
use rctpower_protocol.Frame.Receive.{new}
use rctpower_protocol.Client.Network.{Io, done}
use rctpower_protocol.Proxy.{World, Upstream, Session, Ending}
use rctpower_protocol.Proxy.{serve_bytes}
use rctpower_protocol.Proxy.{serve_client}
use rctpower_protocol.Proxy.Requests.{requests}
use rctpower_protocol.Proxy.Requests.{serve_bytes-requests}
use rctpower_protocol.Proxy.Transparent.{requests-append}
use rctpower_protocol.Proxy.Transparent.{Sent, bytes_of, frames_of}
use rctpower_protocol.Proxy.Transparent.{requests-bytes_of}

pub serve_client_ended :
    (world : World) (up : Upstream) (s : Session) (events : List (Io (List ℕ))) (x : Ending)
    → s.ending ≡ some x
    → serve_client world up s events ≡ (up, s)
unfolding serve_client
serve_client_ended world up s [] x e = refl
serve_client_ended world up s (event ∷ events) x e = ground arith

pub serve_client_open :
    (world : World) (up : Upstream) (s : Session) (bytes : List ℕ) (events : List (Io (List ℕ)))
    → s.ending ≡ none
    → bytes ≢ []
    → let (up', s') = serve_bytes world up s bytes in
      serve_client world up s (done bytes ∷ events) ≡ serve_client world up' s' events
unfolding serve_client
serve_client_open world up s [] events e some_bytes = absurd (some_bytes refl)
serve_client_open world up s (b ∷ bytes) events e some_bytes = ground arith

-- What `serve_bytes` forwards, `serve_client` forwards for the same bytes in any reads.
serve_client-requests :
    (world : World) (chunks : List (List ℕ)) (up : Upstream) (s : Session)
    → All (λ c. c ≢ []) chunks
    → (serve_client world up s (map done chunks)).1.ending ≡ none
    → (serve_client world up s (map done chunks)).1.forwarded
      ≡ s.forwarded ++ requests s.rx (flatten chunks)
unfolding serve_client requests flatten
serve_client-requests world [] up s some_bytes h = sym (append-nil s.forwarded)
serve_client-requests world (c ∷ chunks) up s (some_byte, some_bytes) h =
    let events = map done chunks in
    let (up1, s1) = serve_bytes world up s c in
    elim (Option-cases s.ending) [
      | inr (x, e) ↦ absurd (
          cc (
            sym h ∙ ap (λ p. p.1.ending) (serve_client_ended world up s (done c ∷ events) x e) ∙ e))
      | inl e ↦
          let first = serve_client_open world up s c events e some_byte in
          elim (Option-cases s1.ending) [
            | inr (x, e1) ↦ absurd (
                cc (
                  sym h
                  ∙ ap (λ p. p.1.ending) (first ∙ serve_client_ended world up1 s1 events x e1)
                  ∙ e1))
            | inl e1 ↦
                let (now_rx, now_forwarded) = serve_bytes-requests world c up s e1 in
                ap (λ p. p.1.forwarded) first
                ∙ serve_client-requests world chunks up1 s1 some_bytes
                    (ap (λ p. p.1.ending) (sym first) ∙ h)
                ∙ ap₂ (λ f r. f ++ requests r (flatten chunks)) now_forwarded now_rx
                ∙ append_assoc s.forwarded (requests s.rx c) _
                ∙ ap (λ w. s.forwarded ++ w) (sym (requests-append c (flatten chunks) s.rx))
          ]
    ]

-- A session with a new parser reads, in any pieces that are not empty, standard frames that
-- `make_frame` built, each behind bytes that are no start token. When it has read all of it and
-- goes on, it has forwarded these frames behind what it had forwarded before, in their order and
-- byte by byte as they were sent, whatever has come from upstream.
pub serve_client-frames :
    (world : World) (up : Upstream) (s : Session) (ps : List Sent) (chunks : List (List ℕ))
    → s.rx ≡ new false
    → All (λ c. c ≢ []) chunks
    → flatten chunks ≡ bytes_of ps
    → (serve_client world up s (map done chunks)).1.ending ≡ none
    → (serve_client world up s (map done chunks)).1.forwarded ≡ s.forwarded ++ frames_of ps
serve_client-frames world up s ps chunks fresh some_bytes whole h =
    serve_client-requests world chunks up s some_bytes h
    ∙ ap₂ (λ r w. s.forwarded ++ requests r w) fresh whole
    ∙ ap (λ w. s.forwarded ++ w) (requests-bytes_of ps)
