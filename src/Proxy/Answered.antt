-- ===== src/Proxy/Answered.antt =====
-- A request and its answer, through the proxy.
use rctpower_protocol.Base.{ℕ, ◌+◌, ◌≡◌, refl, sym, ap, ◌∙◌, arith, true, false}
use rctpower_protocol.Base.{Option, none, some}
use rctpower_protocol.Base.{List, [], ◌∷◌, ◌++◌, length, length-append, append-nil}
use mathlib.Core.Path.{ap₂}
use rctpower_protocol.Error.{Result, ok}
use rctpower_protocol.Types.Command.{Command}
use rctpower_protocol.Frame.Receive.{ReceiveFrame, new, step, consume, consume_loop}
use rctpower_protocol.Frame.Checked.{waits}
use rctpower_protocol.Frame.Chunks.{consume_loop-next, consume_loop-returned, consume_loop-failed}
use rctpower_protocol.Frame.Chunks.{consume_loop-panicked, step-waits}
use rctpower_protocol.Frame.Chunks.Index.{view, goes_on, ends, fails, panics}
use rctpower_protocol.Client.Network.{done}
use rctpower_protocol.Client.Reads.{IsFrame, InPieces, receive_frame, consume-frame}
use rctpower_protocol.Client.Pooled.Answer.{receive-Receives}
use rctpower_protocol.Proxy.{World, Turn, Upstream, Session, request, nothing, hear, connection}
use rctpower_protocol.Proxy.{receive}
use rctpower_protocol.Proxy.{exchange, exchange_on, kept, deliver, serve_byte, serve_bytes}
use rctpower_protocol.Proxy.Requests.{serve_bytes_open}
use rctpower_protocol.Proxy.Transparent.{hear-next, hear-returned, length-eq-zero}

-- What becomes of a session when `wire` is complete.
abbrev asked : World → Upstream → Session → List ℕ → Upstream × Session
asked world up s wire =
    let (up', answer) = exchange world up wire in
    let sent = record s { rx = new false; forwarded = s.forwarded ++ (wire ∷ []) } in
    (up', deliver (world up.turn) sent answer)

module _ (world : World) (up : Upstream) where
  serve_byte-nothing :
      (s : Session) (r : ReceiveFrame) (c : ℕ)
      → hear s.rx c ≡ (r, nothing)
      → serve_byte world up s c ≡ (up, record s { rx = r })
  unfolding serve_byte
  serve_byte-nothing s r c e =
      let heard : (hear s.rx c).1 ≡ nothing = ap (λ p. p.1) e in
      rw (heard, serve_byte) (ap (λ p. (up, record s { rx = p.0 })) e)

  serve_byte-request :
      (s : Session) (wire : List ℕ) (c : ℕ)
      → hear s.rx c ≡ (new false, request wire)
      → serve_byte world up s c ≡ asked world up s wire
  unfolding serve_byte
  serve_byte-request s wire c e =
      let heard : (hear s.rx c).1 ≡ request wire = ap (λ p. p.1) e in
      rw (heard, serve_byte)
        (ap
          (λ p.
            let (up', answer) = exchange world up wire in
            let sent = record s { rx = p.0; forwarded = s.forwarded ++ (wire ∷ []) } in
            (up', deliver (world up.turn) sent answer))
          e)

  serve_bytes-asked :
      (xs : List ℕ) (s : Session) (r : ReceiveFrame) (i m : ℕ)
      → s.ending ≡ none
      → waits s.rx ≡ true
      → consume_loop s.rx i xs ≡ (r, ok m)
      → m ≡ i + length xs
      → r.complete ≡ true
      → serve_bytes world up s xs ≡ asked world up s r.raw
  unfolding consume_loop serve_bytes
  serve_bytes-asked [] s r i m alive h e last full =
      let same : s.rx.complete ≡ r.complete = ap (λ p. p.0.complete) e in absurd (ground arith)
  serve_bytes-asked (c ∷ cs) s r i m alive h e last full =
      let first = serve_bytes_open world up s c cs alive in
      elim (view (step s.rx (i + 1) c)) [
        | goes_on r1 p ↦
            first
            ∙ ap (λ q. serve_bytes world q.0 q.1 cs)
                (serve_byte-nothing s r1 c (hear-next s.rx r1 i c h p))
            ∙ serve_bytes-asked cs (record s { rx = r1 }) r (i + 1) m alive
                (step-waits s.rx r1 (i + 1) c h p) (sym (consume_loop-next s.rx r1 i c cs p) ∙ e)
                (omega (arith, last)) full
        | ends r1 p ↦
            let left : ◌≡◌ {A = ReceiveFrame × Result ℕ} (r1, ok (i + 1)) (r, ok m) =
              sym (consume_loop-returned s.rx r1 i c cs p) ∙ e in
            let counted : i + 1 ≡ m = cc (ap (λ q. q.1) left) in
            let none_left : cs ≡ [] = length-eq-zero cs (omega (arith, counted, last)) in
            first
            ∙ ap₂ (λ q ys. serve_bytes world q.0 q.1 ys)
                (serve_byte-request s r1.raw c (hear-returned s.rx r1 i c h p)) none_left
            ∙ ap (λ q. asked world up s q.0.raw) left
        | fails r1 x p ↦
            absurd (cc (ap (λ q. q.1) (sym (consume_loop-failed s.rx r1 i c cs x p) ∙ e)))
        | panics r1 p ↦
            absurd (cc (ap (λ q. q.1) (sym (consume_loop-panicked s.rx r1 i c cs p) ∙ e)))
      ]

-- The upstream exchange of `wire` meets no error, and its reads give `bytes` in pieces.
pub record Answers (turn : Turn) (conn : Option ℕ) (k : ℕ) (wire bytes : List ℕ) : Type 0 where
  pub connected : connection turn conn ≡ ok k
  pub written : turn.write_all k wire ≡ some (done 0)
  pub answered : InPieces bytes (turn.reads k wire)

module _ (world : World) (up : Upstream) (k : ℕ) (wire junk rest frame : List ℕ) (c : Command)
    (payload : List ℕ) (id : ℕ) (f : IsFrame c payload id junk frame)
    (answers : Answers (world up.turn) up.conn k wire (junk ++ (frame ++ rest))) where
  exchange_on-answer : exchange_on (world up.turn) k wire ≡ ok frame
  unfolding exchange_on
  exchange_on-answer =
      let (r, received, held, wired) =
        receive_frame receive c payload id junk frame rest ((world up.turn).reads k wire)
          receive-Receives f answers.answered in
      rw (answers.written, received) (ap ok wired)

  exchange-answer :
      exchange world up wire ≡ (record { conn = some k; turn = up.turn + 1 }, ok frame)
  unfolding exchange
  exchange-answer =
      rw (answers.connected, exchange)
        (ap (λ a. (record { conn = kept k a; turn = up.turn + 1 }, a)) exchange_on-answer)

deliver_frame :
    (turn : Turn) (s : Session) (c : Command) (payload : List ℕ) (id : ℕ) (junk frame : List ℕ)
    → IsFrame c payload id junk frame
    → turn.reply frame ≡ done 0
    → deliver turn s (ok frame) ≡ record s { replies = s.replies ++ (frame ∷ []) }
unfolding deliver
deliver_frame turn s c payload id junk frame f replied =
    let alone : IsFrame c payload id [] frame = record {
      clean = tt;
      sendable = f.sendable;
      fits = f.fits;
      small = f.small;
      address = f.address;
      built = f.built;
    } in
    let (r, received, holds) = consume-frame c payload id [] frame [] alone in
    let parsed : (consume (new false) frame).1 ≡ ok (0 + length frame) =
      ap (λ w. (consume (new false) w).1) (sym (append-nil frame)) ∙ ap (λ p. p.1) received in
    rw (parsed, replied, deliver) refl

-- A session that goes on gets a standard frame that `make_frame` built, behind bytes that are no
-- start token. The upstream connection is there or can be made, the exchange meets no error, and
-- its reads give, in any pieces, another such frame, with any bytes behind it; the client takes
-- the reply. Then exactly the client's frame is forwarded, and exactly the frame from upstream is
-- the reply, each byte by byte with its escapes and without the bytes around it; the connection is
-- kept, one exchange is made, and the session goes on with a new parser.
pub serve_bytes-answer :
    (world : World) (up : Upstream) (s : Session) (k : ℕ) (asking answering : Command)
    (query payload : List ℕ) (wanted id : ℕ) (before wire junk frame rest : List ℕ)
    → s.ending ≡ none
    → s.rx ≡ new false
    → IsFrame asking query wanted before wire
    → IsFrame answering payload id junk frame
    → Answers (world up.turn) up.conn k wire (junk ++ (frame ++ rest))
    → (world up.turn).reply frame ≡ done 0
    → serve_bytes world up s (before ++ wire) ≡ (
      record { conn = some k; turn = up.turn + 1 },
      record s {
        rx = new false;
        forwarded = s.forwarded ++ (wire ∷ []);
        replies = s.replies ++ (frame ∷ []);
      },
    )
unfolding consume
serve_bytes-answer world up s k asking answering query payload wanted id before wire junk frame rest
      alive fresh f g answers replied =
    let (r, received, holds) = consume-frame asking query wanted before wire [] f in
    let whole : consume_loop s.rx 0 (before ++ wire) ≡ (r, ok (length before + length wire)) =
      ap₂ (λ p w. consume_loop p 0 (before ++ w)) fresh (sym (append-nil wire)) ∙ received in
    let sent = record s { rx = new false; forwarded = s.forwarded ++ (wire ∷ []) } in
    serve_bytes-asked world up (before ++ wire) s r 0 _ alive (ap waits fresh) whole
      (omega (arith, length-append before wire)) holds.complete
    ∙ ap (asked world up s) holds.wire_bytes
    ∙ ap (λ p. (p.0, deliver (world up.turn) sent p.1))
        (exchange-answer world up k wire junk rest frame answering payload id g answers)
    ∙ ap (λ d. (record { conn = some k; turn = up.turn + 1 }, d))
        (deliver_frame (world up.turn) sent answering payload id junk frame g replied)
