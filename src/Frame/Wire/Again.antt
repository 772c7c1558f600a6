-- ===== src/Frame/Wire/Again.antt =====
-- The parser of src/frame.rs, fed again what it has stored in `raw`.
use rctpower_protocol.Base.{ℕ, ◌+◌, ◌≡◌, refl, sym, ap, ◌∙◌, arith, true, false}
use rctpower_protocol.Base.{List, [], ◌∷◌, ◌++◌, ◌==◌, inl}
use rctpower_protocol.Base.{inr}
use rctpower_protocol.Base.{is_empty, Bool-cases, length, length-append}
use rctpower_protocol.Base.{subst}
use mathlib.Core.Path.{ap₂}
use rctpower_protocol.Error.{ok}
use rctpower_protocol.Frame.Send.{start_token}
use rctpower_protocol.Frame.Receive.{ReceiveFrame, Flow, new, consume_loop, step}
use rctpower_protocol.Frame.Receive.{next}
use rctpower_protocol.Frame.Receive.{returned}
use rctpower_protocol.Frame.Chunks.Index.{view, goes_on, ends, fails, panics, step-next}
use rctpower_protocol.Frame.Chunks.Index.{step-returned}
use rctpower_protocol.Frame.Chunks.{consume_loop-next, consume_loop-returned, consume_loop-failed}
use rctpower_protocol.Frame.Chunks.{consume_loop-panicked, step-waits, step-complete}
use rctpower_protocol.Frame.Checked.{waits}
use rctpower_protocol.Frame.Wire.{IsUnescaped, new-IsUnescaped}
use rctpower_protocol.Frame.Wire.{step_inside-wire}
use rctpower_protocol.Frame.Wire.{is_empty-nil}
use rctpower_protocol.Frame.Escapes.{raw-nil}
use rctpower_protocol.Frame.Wire.Count.{at, at_flow, step-at}

-- Bytes behind others that a parser still waits after.
consume_loop-append :
    (xs ys : List ℕ) (r r' : ReceiveFrame) (i m : ℕ)
    → waits r ≡ true
    → consume_loop r i xs ≡ (r', ok m)
    → waits r' ≡ true
    → consume_loop r i (xs ++ ys) ≡ consume_loop r' m ys
unfolding consume_loop
consume_loop-append [] ys r r' i m h e h' =
    let counted : i ≡ m = cc (ap (λ p. p.1) e) in
    ap₂ (λ p n. consume_loop p n ys) (ap (λ p. p.0) e) counted
consume_loop-append (c ∷ cs) ys r r' i m h e h' = elim (view (step r (i + 1) c)) [
  | goes_on r1 s ↦
      consume_loop-next r r1 i c (cs ++ ys) s
      ∙ consume_loop-append cs ys r1 r' (i + 1) m (step-waits r r1 (i + 1) c h s)
          (sym (consume_loop-next r r1 i c cs s) ∙ e) h'
  | ends r1 s ↦
      let same : r1 ≡ r' = ap (λ p. p.0) (sym (consume_loop-returned r r1 i c cs s) ∙ e) in
      let full : r'.complete ≡ true =
        sym (ap (λ p. p.complete) same) ∙ step-complete r r1 (i + 1) c h s in
      absurd (ground arith)
  | fails r1 x s ↦ absurd (cc (ap (λ p. p.1) (sym (consume_loop-failed r r1 i c cs x s) ∙ e)))
  | panics r1 s ↦ absurd (cc (ap (λ p. p.1) (sym (consume_loop-panicked r r1 i c cs s) ∙ e)))
]

-- A new parser that is fed `raw` stands where the parser stands, but for its count.
abbrev pub Replays : ReceiveFrame → Type 0
Replays r = consume_loop (new false) 0 r.raw ≡ (at (length r.raw) r, ok (length r.raw))

new-Replays : Replays (new false)
unfolding consume_loop
new-Replays = refl

-- A parser without a frame yet, as `consume` leaves it.
pub record IsRunning (r : ReceiveFrame) : Type 0 where
  pub strict : waits r ≡ true
  pub unescaped : IsUnescaped r
  pub again : Replays r

pub new-IsRunning : IsRunning (new false)
new-IsRunning = record { strict = refl; unescaped = new-IsUnescaped false; again = new-Replays }

-- A parser that has stored nothing is a new one, but for its count.
fresh : (r : ReceiveFrame) → IsRunning r → is_empty r.buffer ≡ true → new false ≡ at 0 r
unfolding consume_loop
fresh r u e =
    let nothing : r.raw ≡ [] =
      raw-nil r.raw (u.unescaped.text ∙ is_empty-nil r.buffer e) u.unescaped.token in
    ap (λ p. p.0)
      (subst (λ raw. consume_loop (new false) 0 raw ≡ (at (length raw) r, ok (length raw))) nothing
        u.again)

step_start :
    (r : ReceiveFrame) (i c : ℕ)
    → is_empty r.buffer ≡ true
    → (c == start_token) ≡ true
    → step r i c
      ≡ (record r { raw = c ∷ []; buffer = c ∷ []; consumed_bytes = r.consumed_bytes + 1 }, next)
unfolding step
step_start r i c e t = rw (e, step, t) refl

-- The start token, and the bytes before it.
pub step_outside-Replays :
    (r : ReceiveFrame) (i c : ℕ) → IsRunning r → is_empty r.buffer ≡ true → Replays (step r i c).0
unfolding step consume_loop
step_outside-Replays r i c u e = elim (Bool-cases (c == start_token)) [
  | inl t ↦ rw (step_start r i c e t) (
      consume_loop-next (new false) _ 0 c [] (step_start (new false) 1 c refl t)
      ∙ ap (λ p. (record p { raw = c ∷ []; buffer = c ∷ []; consumed_bytes = 1 }, ok 1))
          (fresh r u e))
  | inr t ↦ rw (e, step, t) u.again
]

-- The parser has this byte behind those that it has stored.
module _ (r r1 : ReceiveFrame) (i c : ℕ) (u : IsRunning r)
    (inside : is_empty r.buffer ≡ false) where
  step_inside-raw : {flow : Flow} → step r i c ≡ (r1, flow) → r1.raw ≡ r.raw ++ (c ∷ [])
  unfolding step
  step_inside-raw s =
      ap (λ p. p.0.raw) (sym s)
      ∙ rw (inside, step)
          (ap (λ w. w.0)
            (step_inside-wire (record r { consumed_bytes = r.consumed_bytes + 1 }) i c))

  -- What a new parser makes of the byte, once it has the others.
  replayed :
      r1.raw ≡ r.raw ++ (c ∷ [])
      → consume_loop (at (length r.raw) r) (length r.raw) (c ∷ [])
        ≡ (at (length r.raw + 1) r1, ok (length r.raw + 1))
      → Replays r1
  replayed raw e =
      let longer : length r.raw + 1 ≡ length r1.raw =
        omega (arith, ap length raw, length-append r.raw (c ∷ [])) in
      ap (consume_loop (new false) 0) raw
      ∙ consume_loop-append r.raw (c ∷ []) (new false) (at (length r.raw) r) 0 (length r.raw) refl
          u.again u.strict
      ∙ e
      ∙ ap (λ n. (at n r1, ok n)) longer

  pub step_next-Replays : step r i c ≡ (r1, next) → Replays r1
  unfolding consume_loop
  step_next-Replays s =
      let s' = step-next r r1 i (length r.raw + 1) c s in
      replayed (step_inside-raw s) (
        consume_loop-next (at (length r.raw) r) _ (length r.raw) c [] (
          step-at (length r.raw) r (length r.raw + 1) c inside
          ∙ ap (at_flow (length r.raw + 1)) s'))

  pub step_returned-Replays : step r i c ≡ (r1, returned) → Replays r1
  step_returned-Replays s =
      let s' = step-returned r r1 i (length r.raw + 1) c s in
      replayed (step_inside-raw s) (
        consume_loop-returned (at (length r.raw) r) _ (length r.raw) c [] (
          step-at (length r.raw) r (length r.raw + 1) c inside
          ∙ ap (at_flow (length r.raw + 1)) s'))
