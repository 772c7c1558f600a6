-- ===== src/Frame/Chunks/Index.antt =====
-- The count of bytes in a call of `consume` shows in its errors only.
use rctpower_protocol.Base.{ℕ, ◌+◌, ◌≡◌, refl, sym, ap, ◌∙◌, arith, Option, none, some, false}
use rctpower_protocol.Base.{[], ◌∷◌, ◌++◌}
use rctpower_protocol.Error.{RctError}
use rctpower_protocol.Types.Command.{Command}
use rctpower_protocol.Frame.Receive.{ReceiveFrame, Flow, next, returned, failed, panicked, step}
use rctpower_protocol.Frame.Receive.{step_inside, accept, command_byte, check_header}
use rctpower_protocol.Frame.Receive.{check_end, finish, finish_crc, finish_payload}

-- A flow without its error.
abbrev pub kind : Flow → ℕ
kind next = 0
kind returned = 1
kind (failed e) = 2
kind panicked = 3

-- Two outcomes that differ in an error at most.
abbrev pub Alike : ReceiveFrame × Flow → ReceiveFrame × Flow → Type 0
Alike (r, f) (s, g) = (r ≡ s) × (kind f ≡ kind g)

finish-index : (r : ReceiveFrame) (i j : ℕ) → Alike (finish r i) (finish r j)
unfolding finish finish_crc finish_payload
finish-index r i j = (ground arith, ground arith)

check_end-index : (r : ReceiveFrame) (i j : ℕ) → Alike (check_end r i) (check_end r j)
unfolding check_end
check_end-index r i j = let (parser, flow) = finish-index r i j in (ground arith, ground arith)

check_header-index :
    (r : ReceiveFrame) (i j : ℕ) (c : Option Command)
    → Alike (check_header r i c) (check_header r j c)
unfolding check_header
check_header-index r i j none = check_end-index r i j
check_header-index r i j (some c) =
    let (parser, flow) = check_end-index r i j in (ground arith, ground arith)

command_byte-index : (r : ReceiveFrame) (i j : ℕ) → Alike (command_byte r i) (command_byte r j)
unfolding command_byte
command_byte-index r i j = (ground arith, ground arith)

accept-index : (r : ReceiveFrame) (i j c : ℕ) → Alike (accept r i c) (accept r j c)
unfolding accept
accept-index r i j c =
    let r' = record r { buffer = r.buffer ++ (c ∷ []) } in
    let (p1, f1) = command_byte-index r' i j in
    let (p2, f2) = check_header-index r' i j r'.command in (ground arith, ground arith)

step_inside-index : (r : ReceiveFrame) (i j c : ℕ) → Alike (step_inside r i c) (step_inside r j c)
unfolding step_inside
step_inside-index r i j c =
    let r' = record r { raw = r.raw ++ (c ∷ []) } in
    let (p1, f1) = accept-index (record r' { escaping = false }) i j c in
    let (p2, f2) = accept-index r' i j c in (ground arith, ground arith)

pub step-index : (r : ReceiveFrame) (i j c : ℕ) → Alike (step r i c) (step r j c)
unfolding step
step-index r i j c =
    let (p, f) = step_inside-index (record r { consumed_bytes = r.consumed_bytes + 1 }) i j c in
    (ground arith, ground arith)

kind-next : (f : Flow) → kind f ≡ 0 → f ≡ next
kind-next next h = refl
kind-next returned h = absurd (omega arith)
kind-next (failed e) h = absurd (omega arith)
kind-next panicked h = absurd (omega arith)

kind-returned : (f : Flow) → kind f ≡ 1 → f ≡ returned
kind-returned next h = absurd (omega arith)
kind-returned returned h = refl
kind-returned (failed e) h = absurd (omega arith)
kind-returned panicked h = absurd (omega arith)

pub step-next :
    (r r1 : ReceiveFrame) (i j c : ℕ) → step r i c ≡ (r1, next) → step r j c ≡ (r1, next)
step-next r r1 i j c e =
    let (parser, flow) = step-index r i j c in
    λ k. (
      (sym parser ∙ ap (λ p. p.0) e) k,
      kind-next (step r j c).1 (sym flow ∙ ap (λ p. kind p.1) e) k,
    )

pub step-returned :
    (r r1 : ReceiveFrame) (i j c : ℕ) → step r i c ≡ (r1, returned) → step r j c ≡ (r1, returned)
step-returned r r1 i j c e =
    let (parser, flow) = step-index r i j c in
    λ k. (
      (sym parser ∙ ap (λ p. p.0) e) k,
      kind-returned (step r j c).1 (sym flow ∙ ap (λ p. kind p.1) e) k,
    )

-- How a pass of the loop goes on.
pub data View (s : ReceiveFrame × Flow) : Type 0 where
  goes_on : (r : ReceiveFrame) → s ≡ (r, next) → View s
  ends : (r : ReceiveFrame) → s ≡ (r, returned) → View s
  fails : (r : ReceiveFrame) (e : RctError) → s ≡ (r, failed e) → View s
  panics : (r : ReceiveFrame) → s ≡ (r, panicked) → View s

pub view : (s : ReceiveFrame × Flow) → View s
view (r, next) = goes_on r refl
view (r, returned) = ends r refl
view (r, failed e) = fails r e refl
view (r, panicked) = panics r refl
