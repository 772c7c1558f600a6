-- ===== src/Proxy/Interleaved/Alone.antt =====
-- `serve_bytes` as steps of the proxy in which no other client moves.
use rctpower_protocol.Base.{ℕ, ◌≡◌, refl, sym, ap, ◌∙◌, arith, true, some, none, Option}
use rctpower_protocol.Base.{append-nil, append_assoc, ◌++◌}
use rctpower_protocol.Base.{Option-cases, inl, inr, List, [], ◌∷◌, ◌==◌}
use rctpower_protocol.Proxy.{World, Upstream, Session, serve_byte, serve_bytes}
use rctpower_protocol.Proxy.Requests.{serve_bytes_ended, serve_bytes_open}
use rctpower_protocol.Proxy.Interleaved.{System, Peer, Reach, later, takes, update, served}

update-here : (peers : ℕ → Option Peer) (p : ℕ) (v : Peer) → update peers p v p ≡ some v
update-here peers p v = let here : (p == p) ≡ true = ground arith in rw here refl

-- A reachable state of the proxy in which the client `p` stands as `serve_bytes` leaves it, with
-- all of its bytes taken if the session goes on.
pub record Served (world : World) (p : ℕ) (up : Upstream) (session : Session) (taken : List ℕ)
    : Type 0 where
  pub state : System
  pub reached : Reach world state
  pub upstream : state.up ≡ up
  pub peer : Peer
  pub here : state.peers p ≡ some peer
  pub stands : peer.session ≡ session
  pub took : session.ending ≡ none → peer.taken ≡ taken

-- What `serve_bytes` makes of a client and of the connection upstream in a reachable state is what
-- the client and the connection are in another reachable state.
pub Reach-serve_bytes :
    (world : World) (bytes : List ℕ) (t : System) (p : ℕ) (peer : Peer)
    → Reach world t
    → t.peers p ≡ some peer
    → let (up', s') = serve_bytes world t.up peer.session bytes in
      Served world p up' s' (peer.taken ++ bytes)
unfolding serve_bytes
Reach-serve_bytes world [] t p peer r here = record {
  state = t;
  reached = r;
  upstream = refl;
  peer = peer;
  here = here;
  stands = refl;
  took = λ alive. sym (append-nil peer.taken);
}
Reach-serve_bytes world (c ∷ cs) t p peer r here = elim (Option-cases peer.session.ending) [
  | inr (e, over) ↦
      let same = serve_bytes_ended world t.up peer.session (c ∷ cs) e over in
      record {
        state = t;
        reached = r;
        upstream = sym (ap (λ q. q.0) same);
        peer = peer;
        here = here;
        stands = sym (ap (λ q. q.1) same);
        took = λ alive. absurd (cc (sym alive ∙ ap (λ q. q.1.ending) same ∙ over));
      }
  | inl alive ↦
      let next : System = record t {
        up = (serve_byte world t.up peer.session c).0;
        peers = update t.peers p (served world t.up peer c);
      } in
      let rest =
        Reach-serve_bytes world cs next p (served world t.up peer c)
          (later r (takes t p c peer here alive)) (update-here t.peers p _) in
      let same = serve_bytes_open world t.up peer.session c cs alive in
      record {
        state = rest.state;
        reached = rest.reached;
        upstream = rest.upstream ∙ sym (ap (λ q. q.0) same);
        peer = rest.peer;
        here = rest.here;
        stands = rest.stands ∙ sym (ap (λ q. q.1) same);
        took = λ goes_on.
            rest.took (ap (λ q. q.1.ending) (sym same) ∙ goes_on)
            ∙ append_assoc peer.taken (c ∷ []) cs;
      }
]
