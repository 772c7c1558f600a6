-- ===== src/Frame/Wire/Count.antt =====
-- The parser of src/frame.rs and its count of the bytes consumed so far.
use rctpower_protocol.Base.{ℕ, ◌+◌, ◌≡◌, sym, ap, ◌∙◌, arith, false, Option}
use rctpower_protocol.Base.{none, some, [], ◌∷◌, ◌++◌, inl}
use rctpower_protocol.Base.{inr}
use rctpower_protocol.Base.{is_empty}
use rctpower_protocol.Error.{Result, ok, err, panic, Result-cases}
use rctpower_protocol.Types.Command.{Command}
use rctpower_protocol.Frame.Receive.{ReceiveFrame, Flow, step}
use rctpower_protocol.Frame.Receive.{step_inside, accept, command_byte, check_header}
use rctpower_protocol.Frame.Receive.{parse_header}
use rctpower_protocol.Frame.Receive.{check_end, finish, finish_crc, finish_payload}

-- The count of the bytes consumed so far is only counted.
abbrev pub at : ℕ → ReceiveFrame → ReceiveFrame
at k r = record r { consumed_bytes = k }

abbrev pub at_flow : ℕ → ReceiveFrame × Flow → ReceiveFrame × Flow
at_flow k (r, flow) = (at k r, flow)

finish-at : (k : ℕ) (r : ReceiveFrame) (i : ℕ) → finish (at k r) i ≡ at_flow k (finish r i)
unfolding finish finish_crc finish_payload
finish-at k r i = ground arith

check_end-at : (k : ℕ) (r : ReceiveFrame) (i : ℕ) → check_end (at k r) i ≡ at_flow k (check_end r i)
unfolding check_end
check_end-at k r i = ground (arith, finish-at k r i)

abbrev at_result : ℕ → Result ReceiveFrame → Result ReceiveFrame
at_result k (ok r) = ok (at k r)
at_result k (err e) = err e
at_result k panic = panic

parse_header-at :
    (k : ℕ) (r : ReceiveFrame) (c : Command)
    → parse_header (at k r) c ≡ at_result k (parse_header r c)
unfolding parse_header
parse_header-at k r c = ground arith

check_header-at :
    (k : ℕ) (r : ReceiveFrame) (i : ℕ) (c : Option Command)
    → check_header (at k r) i c ≡ at_flow k (check_header r i c)
unfolding check_header
check_header-at k r i none = check_end-at k r i
check_header-at k r i (some c) = elim (Result-cases (parse_header r c)) [
  | inl (r', e) ↦ ground (arith, parse_header-at k r c, check_end-at k r i)
  | inr (inl (x, e)) ↦ ground (arith, parse_header-at k r c, check_end-at k r i)
  | inr (inr e) ↦ ground (arith, parse_header-at k r c, check_end-at k r i)
]

command_byte-at :
    (k : ℕ) (r : ReceiveFrame) (i : ℕ) → command_byte (at k r) i ≡ at_flow k (command_byte r i)
unfolding command_byte
command_byte-at k r i = ground arith

accept-at : (k : ℕ) (r : ReceiveFrame) (i c : ℕ) → accept (at k r) i c ≡ at_flow k (accept r i c)
unfolding accept
accept-at k r i c =
    let r' = record r { buffer = r.buffer ++ (c ∷ []) } in
    ground (arith, command_byte-at k r' i, check_header-at k r' i r'.command)

step_inside-at :
    (k : ℕ) (r : ReceiveFrame) (i c : ℕ) → step_inside (at k r) i c ≡ at_flow k (step_inside r i c)
unfolding step_inside
step_inside-at k r i c =
    let r' = record r { raw = r.raw ++ (c ∷ []) } in
    ground (arith, accept-at k (record r' { escaping = false }) i c, accept-at k r' i c)

pub step-at :
    (k : ℕ) (r : ReceiveFrame) (i c : ℕ)
    → is_empty r.buffer ≡ false
    → step (at k r) i c ≡ at_flow (k + 1) (step r i c)
unfolding step
step-at k r i c inside =
    rw (inside, step)
      (step_inside-at (k + 1) r i c
        ∙ sym (ap (at_flow (k + 1)) (step_inside-at (r.consumed_bytes + 1) r i c)))
