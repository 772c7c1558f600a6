-- ===== src/Proxy/Interleaved.antt =====
-- Many clients of the proxy: their sessions take turns, byte by byte, at one upstream connection.
-- An exchange holds the lock from its start to its end, so that it is one step.
pub mod Alone
pub mod Streams
use rctpower_protocol.Base.{Option, some-injective, subst, ℕ, ◌≡◌, refl, sym, ap, ◌∙◌, false}
use rctpower_protocol.Base.{Bool, true, none}
use rctpower_protocol.Base.{some}
use rctpower_protocol.Base.{List, [], ◌∷◌, ◌++◌, ◌==◌, Bool-cases, inl, inr}
use rctpower_protocol.Base.{if◌then◌else◌, append-nil}
use mathlib.Core.Path.{ap₂}
use rctpower_protocol.Error.{RctError, IoErrorKind}
use rctpower_protocol.Frame.Receive.{new}
use rctpower_protocol.Proxy.{World, Upstream, Session, start, Ending, closed, broken, hear}
use rctpower_protocol.Proxy.{serve_byte}
use rctpower_protocol.Proxy.Requests.{requests, parser_after, completed, serve_byte-forwarded}
use rctpower_protocol.Proxy.Transparent.{requests-append, parser_after-append}

-- A session, and the bytes that its client has sent and the proxy has taken.
pub record Peer : Type 0 where
  pub session : Session
  pub taken : List ℕ

-- What the tasks share, the clients that have been accepted, by number, and whether the loop of
-- `serve` goes on.
pub record System : Type 0 where
  pub up : Upstream
  pub serving : Bool
  pub peers : ℕ → Option Peer

-- `bind`: no upstream connection, and no client.
abbrev pub initial : System
initial = record { up = record { conn = none; turn = 0 }; serving = true; peers = λ p. none }

-- The client `p` is now `v`.
abbrev pub update : (ℕ → Option Peer) → ℕ → Peer → ℕ → Option Peer
update peers p v q = if p == q then some v else peers q

abbrev pub accepted : Peer
accepted = record { session = start; taken = [] }

abbrev pub ended : Peer → Ending → Peer
ended peer e = record { session = record peer.session { ending = some e }; taken = peer.taken }

-- A client after its byte `c`.
abbrev pub served : World → Upstream → Peer → ℕ → Peer
served world up peer c = record {
  session = (serve_byte world up peer.session c).1;
  taken = peer.taken ++ (c ∷ []);
}

-- `serve` accepts a client, for which it spawns a session; a session that goes on takes a byte, or
-- finds that its client has left or cannot be read.
-- An error of `accept` ends `serve`, and the sessions go on.
pub data Step (world : World) : System → System → Type 0 where
  accepts :
      (t : System) (p : ℕ)
      → t.serving ≡ true
      → t.peers p ≡ none
      → Step world t (record t { peers = update t.peers p accepted })
  takes :
      (t : System) (p c : ℕ) (peer : Peer)
      → t.peers p ≡ some peer
      → peer.session.ending ≡ none
      → Step world t (record t {
        up = (serve_byte world t.up peer.session c).0;
        peers = update t.peers p (served world t.up peer c);
      })
  leaves :
      (t : System) (p : ℕ) (peer : Peer)
      → t.peers p ≡ some peer
      → peer.session.ending ≡ none
      → Step world t (record t { peers = update t.peers p (ended peer closed) })
  breaks :
      (t : System) (p : ℕ) (peer : Peer) (kind : IoErrorKind)
      → t.peers p ≡ some peer
      → peer.session.ending ≡ none
      → Step world t
          (record t { peers = update t.peers p (ended peer (broken (RctError.io kind))) })
  stops : (t : System) → t.serving ≡ true → Step world t (record t { serving = false })

pub data Reach (world : World) : System → Type 0 where
  begin : Reach world initial
  later : {t u : System} → Reach world t → Step world t u → Reach world u

-- A client's session stands where the client's own bytes have brought it.
pub record Follows (peer : Peer) : Type 0 where
  pub parser : peer.session.rx ≡ parser_after (new false) peer.taken
  pub forwarded : peer.session.forwarded ≡ requests (new false) peer.taken

accepted-Follows : Follows accepted
unfolding requests parser_after
accepted-Follows = record { parser = refl; forwarded = refl }

served-Follows :
    (world : World) (up : Upstream) (peer : Peer) (c : ℕ)
    → Follows peer
    → Follows (served world up peer c)
unfolding requests parser_after
served-Follows world up peer c f =
    let (same_rx, same_forwarded) = serve_byte-forwarded world up peer.session c in
    record {
      parser =
          same_rx
          ∙ ap (λ r. (hear r c).0) f.parser
          ∙ sym (parser_after-append peer.taken (c ∷ []) (new false));
      forwarded =
          same_forwarded
          ∙ ap₂ (λ fs r. fs ++ completed (hear r c).1) f.forwarded f.parser
          ∙ ap (λ w. requests (new false) peer.taken ++ w) (sym (append-nil _))
          ∙ sym (requests-append peer.taken (c ∷ []) (new false));
    }

ended-Follows : (peer : Peer) (e : Ending) → Follows peer → Follows (ended peer e)
ended-Follows peer e f = record { parser = f.parser; forwarded = f.forwarded }

-- So it is for every client that has been accepted.
abbrev pub AllPeers : (Peer → Type 0) → (ℕ → Option Peer) → Type 0
AllPeers P peers = (q : ℕ) (peer : Peer) → peers q ≡ some peer → P peer

pub update-AllPeers :
    (P : Peer → Type 0) (peers : ℕ → Option Peer) (p : ℕ) (v : Peer)
    → P v
    → AllPeers P peers
    → AllPeers P (update peers p v)
update-AllPeers P peers p v f all q peer here = elim (Bool-cases (p == q)) [
  | inl e ↦ subst P (some-injective v peer (rw e at here)) f
  | inr e ↦ all q peer (rw e at here)
]

-- What holds of a client that is accepted, and is kept by a byte and by an ending, holds in every
-- reachable state.
pub Reach-AllPeers :
    {world : World} (P : Peer → Type 0)
    → P accepted
    → ((up : Upstream) (peer : Peer) (c : ℕ)
        → peer.session.ending ≡ none
        → P peer
        → P (served world up peer c))
    → ((peer : Peer) (e : Ending) → P peer → P (ended peer e))
    → {t : System} → Reach world t
    → AllPeers P t.peers
Reach-AllPeers P begins keeps ends begin = λ q peer here. absurd (cc here)
Reach-AllPeers P begins keeps ends (later r (accepts t p going free)) =
    update-AllPeers P t.peers p accepted begins (Reach-AllPeers P begins keeps ends r)
Reach-AllPeers P begins keeps ends (later r (takes t p c peer here alive)) =
    let all = Reach-AllPeers P begins keeps ends r in
    update-AllPeers P t.peers p _ (keeps t.up peer c alive (all p peer here)) all
Reach-AllPeers P begins keeps ends (later r (leaves t p peer here alive)) =
    let all = Reach-AllPeers P begins keeps ends r in
    update-AllPeers P t.peers p _ (ends peer closed (all p peer here)) all
Reach-AllPeers P begins keeps ends (later r (breaks t p peer kind here alive)) =
    let all = Reach-AllPeers P begins keeps ends r in
    update-AllPeers P t.peers p _ (ends peer (broken (RctError.io kind)) (all p peer here)) all
Reach-AllPeers P begins keeps ends (later r (stops t going)) = Reach-AllPeers P begins keeps ends r

-- In whatever order clients are accepted, send their bytes and leave, and whatever the inverter
-- answers to whom: each session has forwarded the requests in its own client's bytes, and its
-- parser stands where they leave it.
pub Reach-Follows :
    {world : World} {t : System} (q : ℕ) (peer : Peer)
    → Reach world t
    → t.peers q ≡ some peer
    → Follows peer
Reach-Follows {world} q peer r here =
    Reach-AllPeers Follows accepted-Follows (λ up v c alive. served-Follows world up v c)
      ended-Follows r q peer here
