-- ===== src/Frame/Checked.antt =====
-- The checksum of a frame that a strict parser of src/frame.rs accepts.
use rctpower_protocol.Base.{ℕ, ◌+◌, ◌-◌, ◌≡◌, ap, arith, Bool, true, false, not}
use rctpower_protocol.Base.{◌&&◌, Option, none, some}
use rctpower_protocol.Base.{List, [], ◌∷◌, ◌++◌, inl, inr, slice, length, ◌==◌}
use rctpower_protocol.Error.{ok, Result-cases}
use rctpower_protocol.Types.Command.{Command}
use rctpower_protocol.Codec.Crc.{crc16}
use rctpower_protocol.Frame.Receive.{ReceiveFrame, Flow, consume, consume_loop, step}
use rctpower_protocol.Frame.Receive.{step_inside}
use rctpower_protocol.Frame.Receive.{accept, command_byte, check_header, parse_header, check_end}
use rctpower_protocol.Frame.Receive.{finish, finish_crc, finish_payload, next, returned, failed}
use rctpower_protocol.Frame.Receive.{panicked}

-- A parser that is strict and has no frame yet.
abbrev pub waits : ReceiveFrame → Bool
waits r = not r.complete && not r.ignore_crc_mismatch

-- The checksum received is that of the bytes between the start token and the checksum.
unfoldable pub sum_is_right : ReceiveFrame → Bool
sum_is_right r = elim (slice r.buffer 1 (length r.buffer - 2)) [
  | none ↦ false
  | some covered ↦ r.crc16_recv == crc16 covered
]

-- What a strict parser is left as: it waits on, or has a frame whose checksum is right.
abbrev pub checked : ReceiveFrame × Flow → Bool
checked (r, next) = waits r
checked (r, returned) = r.complete && sum_is_right r
checked (r, failed e) = true
checked (r, panicked) = true

finish-checked : (r : ReceiveFrame) (i : ℕ) → waits r ≡ true → checked (finish r i) ≡ true
unfolding finish finish_crc finish_payload sum_is_right
finish-checked r i h = ground arith

check_end-checked : (r : ReceiveFrame) (i : ℕ) → waits r ≡ true → checked (check_end r i) ≡ true
unfolding check_end
check_end-checked r i h = ground (arith, finish-checked r i h)

parse_header-waits :
    (r r' : ReceiveFrame) (c : Command)
    → parse_header r c ≡ ok r'
    → waits r ≡ true
    → waits r' ≡ true
unfolding parse_header
parse_header-waits r r' c e h = ground arith

check_header-checked :
    (r : ReceiveFrame) (i : ℕ) (c : Option Command)
    → waits r ≡ true
    → checked (check_header r i c) ≡ true
unfolding check_header
check_header-checked r i none h = check_end-checked r i h
check_header-checked r i (some c) h = elim (Result-cases (parse_header r c)) [
  | inl (r', e) ↦ ground (arith, parse_header-waits r r' c e h, check_end-checked r i h)
  | inr (inl (x, e)) ↦ ground (arith, check_end-checked r i h)
  | inr (inr e) ↦ ground (arith, check_end-checked r i h)
]

command_byte-checked :
    (r : ReceiveFrame) (i : ℕ) → waits r ≡ true → checked (command_byte r i) ≡ true
unfolding command_byte
command_byte-checked r i h = ground arith

accept-checked : (r : ReceiveFrame) (i c : ℕ) → waits r ≡ true → checked (accept r i c) ≡ true
unfolding accept
accept-checked r i c h =
    let r' = record r { buffer = r.buffer ++ (c ∷ []) } in
    ground (arith, command_byte-checked r' i h, check_header-checked r' i r'.command h)

step_inside-checked :
    (r : ReceiveFrame) (i c : ℕ) → waits r ≡ true → checked (step_inside r i c) ≡ true
unfolding step_inside
step_inside-checked r i c h =
    let r' = record r { raw = r.raw ++ (c ∷ []) } in
    ground (arith, accept-checked (record r' { escaping = false }) i c h, accept-checked r' i c h)

pub step-checked : (r : ReceiveFrame) (i c : ℕ) → waits r ≡ true → checked (step r i c) ≡ true
unfolding step
step-checked r i c h =
    ground (arith, step_inside-checked (record r { consumed_bytes = r.consumed_bytes + 1 }) i c h)

consume_loop-checked :
    (r r' : ReceiveFrame) (i n : ℕ) (bytes : List ℕ)
    → waits r ≡ true
    → consume_loop r i bytes ≡ (r', ok n)
    → r'.complete ≡ true
    → sum_is_right r' ≡ true
unfolding consume_loop
consume_loop-checked r r' i n [] h e full =
    let same : r.complete ≡ r'.complete = ap (λ p. p.0.complete) e in ground arith
consume_loop-checked r r' i n (c ∷ cs) h e full =
    let (r1, flow) = step r (i + 1) c in
    ground (arith, step-checked r (i + 1) c h, consume_loop-checked r1 r' (i + 1) n cs)

-- A parser that does not ignore checksum errors, has no frame yet, and answers `consume` with a
-- count of bytes and a complete frame, whatever the bytes were, has received the
-- checksum of the bytes that it keeps between the start token and the checksum.
pub consume-checked :
    (r r' : ReceiveFrame) (n : ℕ) (bytes : List ℕ)
    → r.complete ≡ false
    → r.ignore_crc_mismatch ≡ false
    → consume r bytes ≡ (r', ok n)
    → r'.complete ≡ true
    → sum_is_right r' ≡ true
unfolding consume
consume-checked r r' n bytes empty strict e full =
    consume_loop-checked r r' 0 n bytes (ground arith) e full
