-- ===== src/Proxy/Interleaved/Streams.antt =====
-- Clients of the proxy that send frames and spoilt bytes, whatever the other clients do.
use rctpower_protocol.Base.{ℕ, ◌+◌, ◌≡◌, refl, sym, ap, ◌∙◌, true, false}
use rctpower_protocol.Base.{some, List, [], ◌∷◌, ◌++◌}
use rctpower_protocol.Error.{RctError, Result, ok, err}
use rctpower_protocol.Frame.Receive.{ReceiveFrame, new, step, consume, consume_loop}
use rctpower_protocol.Frame.Checked.{waits}
use rctpower_protocol.Frame.Chunks.{consume_loop-next, consume_loop-returned, consume_loop-failed}
use rctpower_protocol.Frame.Chunks.{consume_loop-panicked, step-waits, step-complete}
use rctpower_protocol.Frame.Chunks.Index.{view, goes_on, ends, fails, panics}
use rctpower_protocol.Proxy.{World, desync, hear}
use rctpower_protocol.Proxy.Requests.{requests, parser_after, completed}
use rctpower_protocol.Proxy.Transparent.{Sent, hear-next, frame-Completes}
use rctpower_protocol.Proxy.Interleaved.{System, Peer, Reach, Reach-Follows}

hear-err :
    (rx : ReceiveFrame) (c : ℕ) (x : RctError)
    → (consume rx (c ∷ [])).1 ≡ err x
    → hear rx c ≡ (new false, desync)
unfolding hear
hear-err rx c x e = rw (e, hear) refl

-- Bytes from which a parser comes out new, with these requests.
record Renews (rx : ReceiveFrame) (xs : List ℕ) (found : List (List ℕ)) : Type 0 where
  pub asked : (rest : List ℕ) → requests rx (xs ++ rest) ≡ found ++ requests (new false) rest
  pub parser : (rest : List ℕ) → parser_after rx (xs ++ rest) ≡ parser_after (new false) rest

-- The parser takes `xs` and fails at the next byte.
spoilt-Renews :
    (xs : List ℕ) (c : ℕ) (rx r : ReceiveFrame) (i m : ℕ) (x : RctError)
    → waits rx ≡ true
    → consume_loop rx i xs ≡ (r, ok m)
    → r.complete ≡ false
    → (consume r (c ∷ [])).1 ≡ err x
    → Renews rx (xs ++ (c ∷ [])) []
unfolding consume_loop requests parser_after
spoilt-Renews [] c rx r i m x h e unfinished fault =
    let same : rx ≡ r = ap (λ p. p.0) e in
    let heard = hear-err rx c x (ap (λ p. (consume p (c ∷ [])).1) same ∙ fault) in
    record {
      asked = λ rest. ap (λ p. completed p.1 ++ requests p.0 rest) heard;
      parser = λ rest. ap (λ p. parser_after p.0 rest) heard;
    }
spoilt-Renews (b ∷ xs) c rx r i m x h e unfinished fault = elim (view (step rx (i + 1) b)) [
  | goes_on r1 s ↦
      let heard = hear-next rx r1 i b h s in
      let later =
        spoilt-Renews xs c r1 r (i + 1) m x (step-waits rx r1 (i + 1) b h s)
          (sym (consume_loop-next rx r1 i b xs s) ∙ e) unfinished fault in
      record {
        asked = λ rest.
            ap (λ p. completed p.1 ++ requests p.0 ((xs ++ (c ∷ [])) ++ rest)) heard
            ∙ later.asked rest;
        parser =
            λ rest. ap (λ p. parser_after p.0 ((xs ++ (c ∷ [])) ++ rest)) heard ∙ later.parser rest;
      }
  | ends r1 s ↦
      let left : ◌≡◌ {A = ReceiveFrame × Result ℕ} (r1, ok (i + 1)) (r, ok m) =
        sym (consume_loop-returned rx r1 i b xs s) ∙ e in
      let full = step-complete rx r1 (i + 1) b h s in
      absurd (cc (sym full ∙ ap (λ p. p.0.complete) left ∙ unfinished))
  | fails r1 y s ↦ absurd (cc (ap (λ p. p.1) (sym (consume_loop-failed rx r1 i b xs y s) ∙ e)))
  | panics r1 s ↦ absurd (cc (ap (λ p. p.1) (sym (consume_loop-panicked rx r1 i b xs s) ∙ e)))
]

-- What a client sends: standard frames that `make_frame` built, each behind bytes that are no
-- start token, and bytes that a new parser takes without a frame, with one behind them on which
-- it fails. The frames are listed.
pub data Stream : List ℕ → List (List ℕ) → Type 0 where
  silent : Stream [] []
  sent :
      (p : Sent) (bytes : List ℕ) (frames : List (List ℕ))
      → Stream bytes frames
      → Stream ((p.junk ++ p.frame) ++ bytes) (p.frame ∷ frames)
  spoilt :
      (xs : List ℕ) (c : ℕ) (r : ReceiveFrame) (m : ℕ) (x : RctError) (bytes : List ℕ)
      (frames : List (List ℕ))
      → consume (new false) xs ≡ (r, ok m)
      → r.complete ≡ false
      → (consume r (c ∷ [])).1 ≡ err x
      → Stream bytes frames
      → Stream ((xs ++ (c ∷ [])) ++ bytes) frames

Stream-requests :
    {bytes : List ℕ} {frames : List (List ℕ)}
    → Stream bytes frames
    → (parser_after (new false) bytes ≡ new false) × (requests (new false) bytes ≡ frames)
unfolding requests parser_after consume
Stream-requests silent = (refl, refl)
Stream-requests (sent p bytes frames later) =
    let (parser, asked) = Stream-requests later in
    let it = frame-Completes p.command p.payload p.id p.junk p.frame p.is_frame in
    (it.fresh bytes ∙ parser, it.found bytes ∙ ap (λ ws. p.frame ∷ ws) asked)
Stream-requests (spoilt xs c r m x bytes frames taken unfinished fault later) =
    let (parser, asked) = Stream-requests later in
    let it = spoilt-Renews xs c (new false) r 0 m x refl taken unfinished fault in
    (it.parser bytes ∙ parser, it.asked bytes ∙ asked)

-- In whatever order clients are accepted, send their bytes and leave, and whatever the inverter
-- answers to whom: the session of a client of which the proxy has taken standard frames that
-- `make_frame` built, each behind bytes that are no start token, and between them bytes that a new
-- parser takes without a frame up to one on which it fails, has forwarded exactly these frames, in
-- their order and byte by byte, and has a new parser.
pub Reach-Stream :
    {world : World} {t : System} (q : ℕ) (peer : Peer) (frames : List (List ℕ))
    → Reach world t
    → t.peers q ≡ some peer
    → Stream peer.taken frames
    → (peer.session.forwarded ≡ frames) × (peer.session.rx ≡ new false)
Reach-Stream q peer frames r here stream =
    let f = Reach-Follows q peer r here in
    let (parser, asked) = Stream-requests stream in (f.forwarded ∙ asked, f.parser ∙ parser)
