-- ===== src/Proxy/Serialized/Reached.antt =====
-- The reachable states of the proxy of src/proxy.rs, and the sequence of exchanges behind each.
use rctpower_protocol.Base.{ℕ, ◌≡◌, refl, sym, ap, ◌∙◌, arith, true, false}
use rctpower_protocol.Base.{Option, none, some, List, [], ◌∷◌, ◌++◌}
use rctpower_protocol.Base.{append-nil, Bool-cases, inl, inr, ◌==◌}
use rctpower_protocol.Base.{subst}
use mathlib.Core.Path.{ap₂}
use rctpower_protocol.Error.{RctError, Result-cases}
use rctpower_protocol.Proxy.{World, Upstream, Session}
use rctpower_protocol.Proxy.{hear, deliver, serve_byte, exchange, start, Ending, closed, broken}
use rctpower_protocol.Proxy.Requests.{completed, view, is_nothing, is_desync, is_died, is_request}
use rctpower_protocol.Proxy.Requests.{serve_byte-forwarded}
use rctpower_protocol.Proxy.Surviving.{TakesReplies}
use rctpower_protocol.Proxy.Relayed.Sessions.{deliver-exchange}
use rctpower_protocol.Proxy.Interleaved.{System, Peer, Reach, begin, later, accepts, takes, stops}
use rctpower_protocol.Proxy.Interleaved.{leaves, breaks, initial, update, accepted, served, ended}
use rctpower_protocol.Proxy.Serialized.{Log, run, requests_of, answers_of, given, tagged, log_of}
use rctpower_protocol.Proxy.Serialized.{run-append, requests_of-append, answers_of-append}
use rctpower_protocol.Proxy.Serialized.{requests_of-tagged, requests_of_other, answers_of_other}

module _ (world : World) (up : Upstream) (s : Session) (c p : ℕ) where
  serve_byte-run : (serve_byte world up s c).0 ≡ run world up (tagged p (completed (hear s.rx c).1))
  unfolding serve_byte
  serve_byte-run = elim (view (hear s.rx c).1) [
    | is_nothing e ↦ rw (e, serve_byte) refl
    | is_desync e ↦ rw (e, serve_byte) refl
    | is_died e ↦ rw (e, serve_byte) refl
    | is_request w e ↦ rw (e, serve_byte) refl
  ]

deliver-given :
    (world : World) (up : Upstream) (s : Session) (w : List ℕ)
    → TakesReplies world
    → (deliver (world up.turn) s (exchange world up w).1).replies
      ≡ s.replies ++ given (exchange world up w).1
unfolding deliver
deliver-given world up s w taken = elim (Result-cases (exchange world up w).1) [
  | inl (resp, e) ↦ rw e (
      ap (λ d. d.replies) (deliver-exchange world up (world up.turn) s w resp e)
      ∙ rw (taken up.turn resp) refl)
  | inr (inl (x, e)) ↦ rw (e, deliver) (sym (append-nil s.replies))
  | inr (inr e) ↦ rw (e, deliver) (sym (append-nil s.replies))
]

serve_byte-given :
    (world : World) (up : Upstream) (s : Session) (c p : ℕ)
    → TakesReplies world
    → (serve_byte world up s c).1.replies
      ≡ s.replies ++ answers_of world up p (tagged p (completed (hear s.rx c).1))
unfolding serve_byte
serve_byte-given world up s c p taken =
    let alone : s.replies ++ [] ≡ s.replies = append-nil s.replies in
    elim (view (hear s.rx c).1) [
      | is_nothing e ↦ rw (e, serve_byte) (sym alone)
      | is_desync e ↦ rw (e, serve_byte) (sym alone)
      | is_died e ↦ rw (e, serve_byte) (sym alone)
      | is_request w e ↦
          let sent = record s { rx = (hear s.rx c).0; forwarded = s.forwarded ++ (w ∷ []) } in
          let same : (p == p) ≡ true = ground arith in
          rw (e, serve_byte, same)
            (deliver-given world up sent w taken
              ∙ ap (λ ws. s.replies ++ ws) (sym (append-nil (given (exchange world up w).1))))
    ]

-- What a session has forwarded and replied is what the log says of its client.
abbrev Tells : World → Log → ℕ → Session → Type 0
Tells world log q s =
    (s.forwarded ≡ requests_of q log) × (s.replies ≡ answers_of world initial.up q log)

-- A client that has not been accepted yet has done nothing.
abbrev session_of : Option Peer → Session
session_of none = start
session_of (some peer) = peer.session

record IsSerial (world : World) (t : System) (log : Log) : Type 0 where
  upstream : t.up ≡ run world initial.up log
  clients : (q : ℕ) → Tells world log q (session_of (t.peers q))

update-Tells :
    (world : World) (log : Log) (peers : ℕ → Option Peer) (p q : ℕ) (v : Peer)
    → (p ≡ q → Tells world log q v.session)
    → ((p == q) ≡ false → Tells world log q (session_of (peers q)))
    → Tells world log q (session_of (update peers p v q))
update-Tells world log peers p q v here there = elim (Bool-cases (p == q)) [
  | inl e ↦ rw e (here (ground arith))
  | inr e ↦ rw e (there e)
]

-- The log of a client grows by what a byte of the client completes.
module _ (world : World) (t : System) (log : Log) (p c : ℕ) (peer : Peer)
    (taken : TakesReplies world) (f : IsSerial world t log) where
  abbrev grown : List (List ℕ)
  grown = completed (hear peer.session.rx c).1

  run-grown :
      (serve_byte world t.up peer.session c).0 ≡ run world initial.up (log ++ tagged p grown)
  run-grown =
      serve_byte-run world t.up peer.session c p
      ∙ ap (λ u. run world u (tagged p grown)) f.upstream
      ∙ sym (run-append world log (tagged p grown) initial.up)

  Tells-self :
      Tells world log p peer.session
      → Tells world (log ++ tagged p grown) p (serve_byte world t.up peer.session c).1
  Tells-self (forwarded, replies) = (
    (serve_byte-forwarded world t.up peer.session c).1
        ∙ ap₂ (λ xs ys. xs ++ ys) forwarded (sym (requests_of-tagged p grown))
        ∙ sym (requests_of-append p log (tagged p grown)),
    serve_byte-given world t.up peer.session c p taken
        ∙ ap₂ (λ xs u. xs ++ answers_of world u p (tagged p grown)) replies f.upstream
        ∙ sym (answers_of-append world p log (tagged p grown) initial.up),
  )

  Tells-other :
      (q : ℕ) (s : Session)
      → (p == q) ≡ false
      → Tells world log q s
      → Tells world (log ++ tagged p grown) q s
  Tells-other q s e (forwarded, replies) = (
    forwarded
        ∙ sym (append-nil (requests_of q log))
        ∙ ap (λ xs. requests_of q log ++ xs) (sym (requests_of_other p q grown e))
        ∙ sym (requests_of-append q log (tagged p grown)),
    replies
        ∙ sym (append-nil (answers_of world initial.up q log))
        ∙ ap (λ xs. answers_of world initial.up q log ++ xs)
            (sym (answers_of_other world p q grown (run world initial.up log) e))
        ∙ sym (answers_of-append world q log (tagged p grown) initial.up),
  )

IsSerial-ended :
    (world : World) (t : System) (log : Log) (p : ℕ) (peer : Peer) (e : Ending)
    → t.peers p ≡ some peer
    → IsSerial world t log
    → IsSerial world (record t { peers = update t.peers p (ended peer e) }) log
IsSerial-ended world t log p peer e here f =
    let told : Tells world log p peer.session =
      subst (λ o. Tells world log p (session_of o)) here (f.clients p) in
    record {
      upstream = f.upstream;
      clients = λ q.
          update-Tells world log t.peers p q (ended peer e)
            (λ same. subst (λ n. Tells world log n peer.session) same told) (λ other. f.clients q);
    }

Reach-IsSerial :
    {world : World} {t : System}
    → TakesReplies world
    → (r : Reach world t) → IsSerial world t (log_of r)
Reach-IsSerial taken begin = record { upstream = refl; clients = λ q. (refl, refl) }
Reach-IsSerial {world} taken (later r (accepts t p going free)) =
    let f = Reach-IsSerial taken r in
    record {
      upstream = f.upstream;
      clients = λ q.
          update-Tells world (log_of r) t.peers p q accepted
            (λ same.
              subst (λ o. Tells world (log_of r) q (session_of o)) (ap t.peers (sym same) ∙ free)
                (f.clients q))
            (λ other. f.clients q);
    }
Reach-IsSerial {world} taken (later r (takes t p c peer here alive)) =
    let f = Reach-IsSerial taken r in
    let told : Tells world (log_of r) p peer.session =
      subst (λ o. Tells world (log_of r) p (session_of o)) here (f.clients p) in
    let log = log_of r ++ tagged p (completed (hear peer.session.rx c).1) in
    record {
      upstream = run-grown world t (log_of r) p c peer taken f;
      clients = λ q.
          update-Tells world log t.peers p q (served world t.up peer c)
            (λ same.
              subst (λ n. Tells world log n (serve_byte world t.up peer.session c).1) same
                (Tells-self world t (log_of r) p c peer taken f told))
            (λ other.
              Tells-other world t (log_of r) p c peer taken f q (session_of (t.peers q)) other
                (f.clients q));
    }
Reach-IsSerial {world} taken (later r (leaves t p peer here alive)) =
    IsSerial-ended world t (log_of r) p peer closed here (Reach-IsSerial taken r)
Reach-IsSerial {world} taken (later r (breaks t p peer kind here alive)) =
    IsSerial-ended world t (log_of r) p peer (broken (RctError.io kind)) here
      (Reach-IsSerial taken r)
Reach-IsSerial taken (later r (stops t going)) =
    let f = Reach-IsSerial taken r in record { upstream = f.upstream; clients = f.clients }

-- Whatever clients are accepted, send and leave, in whatever order, as long as they take their
-- replies: the upstream connection stands where one sequence of exchanges, one after another, has
-- brought it, the same sequence for all clients. What a client has forwarded is its own requests
-- in this sequence, and what it has got is the answers to them, without those that are errors.
pub Reach-serial :
    {world : World} {t : System} (q : ℕ) (peer : Peer)
    → TakesReplies world
    → (r : Reach world t) → t.peers q ≡ some peer
    → (t.up ≡ run world initial.up (log_of r))
      × (peer.session.forwarded ≡ requests_of q (log_of r))
      × (peer.session.replies ≡ answers_of world initial.up q (log_of r))
Reach-serial {world} q peer taken r here =
    let f = Reach-IsSerial taken r in
    let told : Tells world (log_of r) q peer.session =
      subst (λ o. Tells world (log_of r) q (session_of o)) here (f.clients q) in
    (f.upstream, told.0, told.1)
