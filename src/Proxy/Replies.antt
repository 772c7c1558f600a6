-- ===== src/Proxy/Replies.antt =====
-- Whose replies a client of the proxy of src/proxy.rs gets.
use rctpower_protocol.Base.{ℕ, false, ◌≡◌, some, List, [], ◌∷◌, ◌++◌, inl, inr}
use rctpower_protocol.Error.{ok, Result-cases}
use rctpower_protocol.Frame.Receive.{consume, new}
use rctpower_protocol.Client.Network.{io_view, is_done, is_failed}
use rctpower_protocol.Proxy.{World, Turn, Upstream, Session, hear, deliver}
use rctpower_protocol.Proxy.{exchange}
use rctpower_protocol.Proxy.{serve_byte}
use rctpower_protocol.Proxy.Requests.{view, is_nothing, is_desync, is_died, is_request}
use rctpower_protocol.Proxy.Interleaved.{System, Peer, Reach, Reach-AllPeers}

-- The second list holds answers of `exchange` to requests of the first, each to one of its own,
-- and in their order; a request may have none.
pub data Answers (world : World) : List (List ℕ) → List (List ℕ) → Type 0 where
  begun : Answers world [] []
  answered :
      {requests replies : List (List ℕ)} (up : Upstream) (w resp : List ℕ)
      → (exchange world up w).1 ≡ ok resp
      → Answers world requests replies
      → Answers world (requests ++ (w ∷ [])) (replies ++ (resp ∷ []))
  unanswered :
      {requests replies : List (List ℕ)} (w : List ℕ)
      → Answers world requests replies
      → Answers world (requests ++ (w ∷ [])) replies

abbrev Answered : World → Session → Type 0
Answered world s = Answers world s.forwarded s.replies

deliver-Answered :
    (world : World) (up : Upstream) (s : Session) (w : List ℕ) (turn : Turn)
    → Answered world s
    → let sent = record s { forwarded = s.forwarded ++ (w ∷ []) } in
      Answered world (deliver turn sent (exchange world up w).1)
unfolding deliver
deliver-Answered world up s w turn a = elim (Result-cases (exchange world up w).1) [
  | inr (inl (x, e)) ↦ rw (e, deliver) (unanswered w a)
  | inr (inr e) ↦ rw (e, deliver) (unanswered w a)
  | inl (resp, e) ↦ elim (Result-cases (consume (new false) resp).1) [
    | inr (inr parsed) ↦ rw (e, deliver, parsed) (unanswered w a)
    | inr (inl (x, parsed)) ↦ elim (io_view (turn.reply resp)) [
      | is_done n sent ↦ rw (e, deliver, parsed, sent) (answered up w resp e a)
      | is_failed kind sent ↦ rw (e, deliver, parsed, sent) (unanswered w a)
    ]
    | inl (m, parsed) ↦ elim (io_view (turn.reply resp)) [
      | is_done n sent ↦ rw (e, deliver, parsed, sent) (answered up w resp e a)
      | is_failed kind sent ↦ rw (e, deliver, parsed, sent) (unanswered w a)
    ]
  ]
]

serve_byte-Answered :
    (world : World) (up : Upstream) (s : Session) (c : ℕ)
    → Answered world s
    → Answered world (serve_byte world up s c).1
unfolding serve_byte
serve_byte-Answered world up s c a = elim (view (hear s.rx c).1) [
  | is_nothing e ↦ rw (e, serve_byte) a
  | is_desync e ↦ rw (e, serve_byte) a
  | is_died e ↦ rw (e, serve_byte) a
  | is_request w e ↦
      rw (e, serve_byte)
        (deliver-Answered world up (record s { rx = (hear s.rx c).0 }) w (world up.turn) a)
]

-- In every reachable state of the proxy, whatever its other clients do, the replies that a client
-- has got are answers of `exchange` to requests of its own, each to another one, in the order of
-- these requests.
pub Reach-Answers :
    {world : World} {t : System} (q : ℕ) (peer : Peer)
    → Reach world t
    → t.peers q ≡ some peer
    → Answers world peer.session.forwarded peer.session.replies
Reach-Answers {world} q peer r here =
    Reach-AllPeers (λ p. Answered world p.session) begun
      (λ up v c alive a. serve_byte-Answered world up v.session c a) (λ v e a. a) r q peer here
