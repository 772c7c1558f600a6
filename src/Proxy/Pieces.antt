-- ===== src/Proxy/Pieces.antt =====
-- The reads of a client of the proxy of src/proxy.rs, and the bytes in them.
use rctpower_protocol.Base.{ℕ, ◌≡◌, ◌≢◌, refl, sym, ap, ◌∙◌, List, [], ◌∷◌, ◌++◌, All}
use rctpower_protocol.Base.{map}
use rctpower_protocol.Base.{flatten, Option-cases, inl, inr}
use rctpower_protocol.Client.Network.{done}
use rctpower_protocol.Proxy.{World, Upstream, Session, serve_byte, serve_bytes, serve_client}
use rctpower_protocol.Proxy.Requests.{serve_bytes_ended, serve_bytes_open}
use rctpower_protocol.Proxy.Serving.{serve_client_ended, serve_client_open}

pub serve_bytes-append :
    (world : World) (xs ys : List ℕ) (up : Upstream) (s : Session)
    → serve_bytes world up s (xs ++ ys)
      ≡ (let (up', s') = serve_bytes world up s xs in serve_bytes world up' s' ys)
unfolding serve_bytes
serve_bytes-append world [] ys up s = refl
serve_bytes-append world (c ∷ xs) ys up s = elim (Option-cases s.ending) [
  | inr (x, e) ↦
      serve_bytes_ended world up s (c ∷ (xs ++ ys)) x e
      ∙ sym (
          ap (λ p. serve_bytes world p.0 p.1 ys) (serve_bytes_ended world up s (c ∷ xs) x e)
          ∙ serve_bytes_ended world up s ys x e)
  | inl e ↦
      let (up1, s1) = serve_byte world up s c in
      serve_bytes_open world up s c (xs ++ ys) e
      ∙ serve_bytes-append world xs ys up1 s1
      ∙ sym (ap (λ p. serve_bytes world p.0 p.1 ys) (serve_bytes_open world up s c xs e))
]

-- A session and its upstream connection end up as if all bytes had come in one read, however
-- they come in reads that are not empty, whatever the frames in them, and whatever comes from
-- upstream.
pub serve_client-pieces :
    (world : World) (chunks : List (List ℕ)) (up : Upstream) (s : Session)
    → All (λ c. c ≢ []) chunks
    → serve_client world up s (map done chunks) ≡ serve_bytes world up s (flatten chunks)
unfolding serve_client serve_bytes flatten
serve_client-pieces world [] up s some_bytes = refl
serve_client-pieces world (c ∷ chunks) up s (some_byte, some_bytes) = elim (Option-cases s.ending) [
  | inr (x, e) ↦
      serve_client_ended world up s (done c ∷ map done chunks) x e
      ∙ sym (serve_bytes_ended world up s (c ++ flatten chunks) x e)
  | inl e ↦
      let (up1, s1) = serve_bytes world up s c in
      serve_client_open world up s c (map done chunks) e some_byte
      ∙ serve_client-pieces world chunks up1 s1 some_bytes
      ∙ sym (serve_bytes-append world c (flatten chunks) up s)
]
