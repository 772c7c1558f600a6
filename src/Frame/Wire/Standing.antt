-- ===== src/Frame/Wire/Standing.antt =====
-- What `consume` of src/frame.rs leaves, of a parser that is strict and has no frame yet.
use rctpower_protocol.Base.{ℕ, ◌+◌, ◌≡◌, sym, ap, ◌∙◌, arith, true, false}
use rctpower_protocol.Base.{List, [], ◌∷◌, inl}
use rctpower_protocol.Base.{inr}
use rctpower_protocol.Base.{is_empty, Bool-cases, length}
use rctpower_protocol.Base.{subst}
use rctpower_protocol.Error.{ok}
use rctpower_protocol.Frame.Receive.{ReceiveFrame, Flow, new, consume, consume_loop, step}
use rctpower_protocol.Frame.Receive.{next}
use rctpower_protocol.Frame.Receive.{returned}
use rctpower_protocol.Frame.Chunks.Index.{view, goes_on, ends, fails, panics}
use rctpower_protocol.Frame.Chunks.{consume_loop-next, consume_loop-returned, consume_loop-failed}
use rctpower_protocol.Frame.Chunks.{consume_loop-panicked, step-waits}
use rctpower_protocol.Frame.Checked.{checked, sum_is_right, step-checked}
use rctpower_protocol.Frame.Wire.{IsUnescaped, step-IsUnescaped}
use rctpower_protocol.Frame.Wire.Again.{IsRunning, new-IsRunning, Replays, step_outside-Replays}
use rctpower_protocol.Frame.Wire.Again.{step_next-Replays, step_returned-Replays}

-- A parser with a frame, as `consume` leaves it.
pub record IsFinished (r : ReceiveFrame) : Type 0 where
  pub full : r.complete ≡ true
  pub right : sum_is_right r ≡ true
  pub unescaped : IsUnescaped r
  pub again : Replays r

step_stored :
    (r r1 : ReceiveFrame) (flow : Flow) (i c : ℕ)
    → IsUnescaped r
    → step r i c ≡ (r1, flow)
    → IsUnescaped r1
step_stored r r1 flow i c u s = subst IsUnescaped (ap (λ p. p.0) s) (step-IsUnescaped r i c u)

pub step-IsRunning :
    (r r1 : ReceiveFrame) (i c : ℕ) → IsRunning r → step r i c ≡ (r1, next) → IsRunning r1
step-IsRunning r r1 i c u s = record {
  strict = step-waits r r1 i c u.strict s;
  unescaped = step_stored r r1 next i c u.unescaped s;
  again = elim (Bool-cases (is_empty r.buffer)) [
    | inl e ↦ subst Replays (ap (λ p. p.0) s) (step_outside-Replays r i c u e)
    | inr e ↦ step_next-Replays r r1 i c u e s
  ];
}

pub step-IsFinished :
    (r r1 : ReceiveFrame) (i c : ℕ) → IsRunning r → step r i c ≡ (r1, returned) → IsFinished r1
step-IsFinished r r1 i c u s =
    let right : checked (r1, returned) ≡ true = sym (ap checked s) ∙ step-checked r i c u.strict in
    record {
      full = ground arith;
      right = ground arith;
      unescaped = step_stored r r1 returned i c u.unescaped s;
      again = elim (Bool-cases (is_empty r.buffer)) [
        | inl e ↦ subst Replays (ap (λ p. p.0) s) (step_outside-Replays r i c u e)
        | inr e ↦ step_returned-Replays r r1 i c u e s
      ];
    }

-- What a call of `consume` that succeeds leaves of a running parser.
pub data Stands (r : ReceiveFrame) : Type 0 where
  running : IsRunning r → Stands r
  finished : IsFinished r → Stands r

pub consume_loop-Stands :
    (bytes : List ℕ) (r r' : ReceiveFrame) (i m : ℕ)
    → IsRunning r
    → consume_loop r i bytes ≡ (r', ok m)
    → Stands r'
unfolding consume_loop
consume_loop-Stands [] r r' i m u e = running (subst IsRunning (ap (λ p. p.0) e) u)
consume_loop-Stands (c ∷ cs) r r' i m u e = elim (view (step r (i + 1) c)) [
  | goes_on r1 s ↦
      consume_loop-Stands cs r1 r' (i + 1) m (step-IsRunning r r1 (i + 1) c u s)
        (sym (consume_loop-next r r1 i c cs s) ∙ e)
  | ends r1 s ↦
      let same : r1 ≡ r' = ap (λ p. p.0) (sym (consume_loop-returned r r1 i c cs s) ∙ e) in
      finished (subst IsFinished same (step-IsFinished r r1 (i + 1) c u s))
  | fails r1 x s ↦ absurd (cc (ap (λ p. p.1) (sym (consume_loop-failed r r1 i c cs x s) ∙ e)))
  | panics r1 s ↦ absurd (cc (ap (λ p. p.1) (sym (consume_loop-panicked r r1 i c cs s) ∙ e)))
]

-- What a call of `consume` on a new strict parser that ends with a count of bytes leaves, with a
-- frame or on the way to one, comes back from the bytes in `raw` alone: a new strict parser takes
-- all of them, and is the same but for its count of bytes, which is that of `raw`.
pub consume-raw :
    (bytes : List ℕ) (r : ReceiveFrame) (n : ℕ)
    → consume (new false) bytes ≡ (r, ok n)
    → consume (new false) r.raw ≡ (record r { consumed_bytes = length r.raw }, ok (length r.raw))
unfolding consume
consume-raw bytes r n e = elim (consume_loop-Stands bytes (new false) r 0 n new-IsRunning e) [
  | running u ↦ u.again
  | finished u ↦ u.again
]
