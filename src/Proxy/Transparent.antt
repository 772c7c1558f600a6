-- ===== src/Proxy/Transparent.antt =====
-- Frames on their way through the proxy, byte by byte.
use rctpower_protocol.Base.{ℕ, ◌+◌, ◌≡◌, refl, sym, ap, ◌∙◌, arith, true, false}
use rctpower_protocol.Base.{List, [], ◌∷◌, ◌++◌, length, length-append, subst, append-nil}
use rctpower_protocol.Base.{append_assoc}
use mathlib.Core.Path.{ap₂}
use rctpower_protocol.Base.{if◌then◌else◌}
use rctpower_protocol.Error.{Result, ok}
use rctpower_protocol.Types.Command.{Command}
use rctpower_protocol.Frame.Receive.{ReceiveFrame, new, next, returned, step, consume}
use rctpower_protocol.Frame.Receive.{consume_loop}
use rctpower_protocol.Frame.Checked.{waits}
use rctpower_protocol.Frame.Chunks.{consume_loop-next, consume_loop-returned, consume_loop-failed}
use rctpower_protocol.Frame.Chunks.{consume_loop-panicked, step-waits, step-complete}
use rctpower_protocol.Frame.Chunks.Index.{step-next, step-returned, view, goes_on, ends, fails}
use rctpower_protocol.Frame.Chunks.Index.{panics}
use rctpower_protocol.Client.Reads.{IsFrame, consume-frame}
use rctpower_protocol.Proxy.{nothing, request, hear}
use rctpower_protocol.Proxy.Requests.{requests, parser_after, completed}

hear_lem :
    (rx r1 : ReceiveFrame) (c n : ℕ)
    → consume rx (c ∷ []) ≡ (r1, ok n)
    → hear rx c ≡ (if r1.complete then (new false, request r1.raw) else (r1, nothing))
unfolding hear
hear_lem rx r1 c n e =
    let counted : (consume rx (c ∷ [])).1 ≡ ok n = ap (λ p. p.1) e in
    rw (counted, hear)
      (ap (λ p. if p.0.complete then (new false, request p.0.raw) else (p.0, nothing)) e)

module _ (rx r1 : ReceiveFrame) (i c : ℕ) (h : waits rx ≡ true) where
  pub hear-next : step rx (i + 1) c ≡ (r1, next) → hear rx c ≡ (r1, nothing)
  unfolding consume consume_loop
  hear-next s =
      let still : waits r1 ≡ true = step-waits rx r1 (i + 1) c h s in
      let no_frame : r1.complete ≡ false = ground arith in
      hear_lem rx r1 c 1 (consume_loop-next rx r1 0 c [] (step-next rx r1 (i + 1) (0 + 1) c s))
      ∙ ap (λ b. if b then (new false, request r1.raw) else (r1, nothing)) no_frame

  pub hear-returned : step rx (i + 1) c ≡ (r1, returned) → hear rx c ≡ (new false, request r1.raw)
  unfolding consume consume_loop
  hear-returned s =
      hear_lem rx r1 c 1
        (consume_loop-returned rx r1 0 c [] (step-returned rx r1 (i + 1) (0 + 1) c s))
      ∙ ap (λ b. if b then (new false, request r1.raw) else (r1, nothing))
          (step-complete rx r1 (i + 1) c h s)

pub length-eq-zero : (ys : List ℕ) → length ys ≡ 0 → ys ≡ []
length-eq-zero [] z = refl
length-eq-zero (y ∷ ys) z = absurd (omega arith)

-- Bytes of which the last one completes a frame.
pub record Completes (rx : ReceiveFrame) (xs : List ℕ) (wire : List ℕ) : Type 0 where
  pub found : (rest : List ℕ) → requests rx (xs ++ rest) ≡ wire ∷ requests (new false) rest
  pub fresh : (rest : List ℕ) → parser_after rx (xs ++ rest) ≡ parser_after (new false) rest

consume_loop-Completes :
    (xs : List ℕ) (rx r : ReceiveFrame) (i m : ℕ)
    → waits rx ≡ true
    → consume_loop rx i xs ≡ (r, ok m)
    → m ≡ i + length xs
    → r.complete ≡ true
    → Completes rx xs r.raw
unfolding consume_loop requests parser_after
consume_loop-Completes [] rx r i m h e last full =
    let same : rx.complete ≡ r.complete = ap (λ p. p.0.complete) e in absurd (ground arith)
consume_loop-Completes (c ∷ cs) rx r i m h e last full = elim (view (step rx (i + 1) c)) [
  | goes_on r1 s ↦
      let heard = hear-next rx r1 i c h s in
      let later =
        consume_loop-Completes cs r1 r (i + 1) m (step-waits rx r1 (i + 1) c h s)
          (sym (consume_loop-next rx r1 i c cs s) ∙ e) (omega (arith, last)) full in
      record {
        found =
            λ rest. ap (λ p. completed p.1 ++ requests p.0 (cs ++ rest)) heard ∙ later.found rest;
        fresh = λ rest. ap (λ p. parser_after p.0 (cs ++ rest)) heard ∙ later.fresh rest;
      }
  | ends r1 s ↦
      let heard = hear-returned rx r1 i c h s in
      let left : ◌≡◌ {A = ReceiveFrame × Result ℕ} (r1, ok (i + 1)) (r, ok m) =
        sym (consume_loop-returned rx r1 i c cs s) ∙ e in
      let counted : i + 1 ≡ m = cc (ap (λ p. p.1) left) in
      let none_left : cs ≡ [] = length-eq-zero cs (omega (arith, counted, last)) in
      let parser : r1 ≡ r = ap (λ p. p.0) left in
      record {
        found = λ rest.
            ap (λ p. completed p.1 ++ requests p.0 (cs ++ rest)) heard
            ∙ ap₂ (λ w ys. w.raw ∷ requests (new false) (ys ++ rest)) parser none_left;
        fresh = λ rest.
            ap (λ p. parser_after p.0 (cs ++ rest)) heard
            ∙ ap (λ ys. parser_after (new false) (ys ++ rest)) none_left;
      }
  | fails r1 x s ↦ absurd (cc (ap (λ p. p.1) (sym (consume_loop-failed rx r1 i c cs x s) ∙ e)))
  | panics r1 s ↦ absurd (cc (ap (λ p. p.1) (sym (consume_loop-panicked rx r1 i c cs s) ∙ e)))
]

-- A frame behind bytes that are no start token is one request.
pub frame-Completes :
    (c : Command) (payload : List ℕ) (id : ℕ) (junk frame : List ℕ)
    → IsFrame c payload id junk frame
    → Completes (new false) (junk ++ frame) frame
unfolding consume
frame-Completes c payload id junk frame f =
    let (r, received, holds) = consume-frame c payload id junk frame [] f in
    let all : junk ++ (frame ++ []) ≡ junk ++ frame = ap (λ w. junk ++ w) (append-nil frame) in
    let whole : consume_loop (new false) 0 (junk ++ frame) ≡ (r, ok (length junk + length frame)) =
      ap (λ w. consume_loop (new false) 0 w) (sym all) ∙ received in
    subst (Completes (new false) (junk ++ frame)) holds.wire_bytes (
      consume_loop-Completes (junk ++ frame) (new false) r 0 _ refl whole
        (omega (arith, length-append junk frame)) holds.complete)

-- A frame of a client, with what it sends before.
pub record Sent : Type 0 where
  pub command : Command
  pub payload : List ℕ
  pub id : ℕ
  pub junk : List ℕ
  pub frame : List ℕ
  pub is_frame : IsFrame command payload id junk frame

abbrev pub bytes_of : List Sent → List ℕ
bytes_of [] = []
bytes_of (p ∷ ps) = (p.junk ++ p.frame) ++ bytes_of ps

abbrev pub frames_of : List Sent → List (List ℕ)
frames_of [] = []
frames_of (p ∷ ps) = p.frame ∷ frames_of ps

pub requests-bytes_of : (ps : List Sent) → requests (new false) (bytes_of ps) ≡ frames_of ps
unfolding requests
requests-bytes_of [] = refl
requests-bytes_of (p ∷ ps) =
    (frame-Completes p.command p.payload p.id p.junk p.frame p.is_frame).found (bytes_of ps)
    ∙ ap (λ ws. p.frame ∷ ws) (requests-bytes_of ps)

pub requests-append :
    (xs ys : List ℕ) (rx : ReceiveFrame)
    → requests rx (xs ++ ys) ≡ requests rx xs ++ requests (parser_after rx xs) ys
unfolding requests parser_after
requests-append [] ys rx = refl
requests-append (c ∷ xs) ys rx =
    let (rx', heard) = hear rx c in
    ap (λ ws. completed heard ++ ws) (requests-append xs ys rx')
    ∙ sym (append_assoc (completed heard) (requests rx' xs) (requests (parser_after rx' xs) ys))

pub parser_after-append :
    (xs ys : List ℕ) (rx : ReceiveFrame)
    → parser_after rx (xs ++ ys) ≡ parser_after (parser_after rx xs) ys
unfolding parser_after
parser_after-append [] ys rx = refl
parser_after-append (c ∷ xs) ys rx = parser_after-append xs ys (hear rx c).0
