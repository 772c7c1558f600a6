-- ===== src/Frame/Address.antt =====
-- `consume` of src/frame.rs and the address of a parser.
use rctpower_protocol.Base.{ℕ, ◌+◌, ◌≡◌, refl, arith, false, Option}
use rctpower_protocol.Base.{none, some}
use rctpower_protocol.Base.{List, [], ◌∷◌, ◌++◌, inl, inr}
use rctpower_protocol.Error.{ok, Result-cases}
use rctpower_protocol.Types.Command.{Command}
use rctpower_protocol.Types.Command.Laws.{is_plant_byte-byte}
use rctpower_protocol.Frame.Receive.{ReceiveFrame, consume, consume_loop, step}
use rctpower_protocol.Frame.Receive.{step_inside}
use rctpower_protocol.Frame.Receive.{accept, command_byte, check_header, parse_header, check_end}
use rctpower_protocol.Frame.Receive.{finish, finish_crc, finish_payload}

finish_payload-address :
    (r : ReceiveFrame) (i calc : ℕ) (bytes : Option (List ℕ))
    → (finish_payload r i calc bytes).0.address ≡ r.address
unfolding finish_payload
finish_payload-address r i calc bytes = ground arith

finish-address : (r : ReceiveFrame) (i : ℕ) → (finish r i).0.address ≡ r.address
unfolding finish finish_crc finish_payload
finish-address r i = ground arith

check_end-address : (r : ReceiveFrame) (i : ℕ) → (check_end r i).0.address ≡ r.address
unfolding check_end
check_end-address r i = ground (arith, finish-address r i)

parse_header-address :
    (r r' : ReceiveFrame) (c : Command) → parse_header r c ≡ ok r' → r'.address ≡ r.address
unfolding parse_header
parse_header-address r r' c h = ground (arith, is_plant_byte-byte c)

check_header-address :
    (r : ReceiveFrame) (i : ℕ) (c : Option Command) → (check_header r i c).0.address ≡ r.address
unfolding check_header
check_header-address r i none = check_end-address r i
check_header-address r i (some c) = elim (Result-cases (parse_header r c)) [
  | inl (r', e) ↦ ground (arith, parse_header-address r r' c e, check_end-address r i)
  | inr (inl (x, e)) ↦ ground (arith, check_end-address r i)
  | inr (inr e) ↦ ground (arith, check_end-address r i)
]

command_byte-address : (r : ReceiveFrame) (i : ℕ) → (command_byte r i).0.address ≡ r.address
unfolding command_byte
command_byte-address r i = ground arith

accept-address : (r : ReceiveFrame) (i c : ℕ) → (accept r i c).0.address ≡ r.address
unfolding accept
accept-address r i c =
    let r' = record r { buffer = r.buffer ++ (c ∷ []) } in
    ground (arith, command_byte-address r' i, check_header-address r' i r'.command)

step_inside-address : (r : ReceiveFrame) (i c : ℕ) → (step_inside r i c).0.address ≡ r.address
unfolding step_inside
step_inside-address r i c =
    let r' = record r { raw = r.raw ++ (c ∷ []) } in
    ground (arith, accept-address (record r' { escaping = false }) i c, accept-address r' i c)

step-address : (r : ReceiveFrame) (i c : ℕ) → (step r i c).0.address ≡ r.address
unfolding step
step-address r i c =
    ground (arith, step_inside-address (record r { consumed_bytes = r.consumed_bytes + 1 }) i c)

consume_loop-address :
    (r : ReceiveFrame) (i : ℕ) (bytes : List ℕ) → (consume_loop r i bytes).0.address ≡ r.address
unfolding consume_loop
consume_loop-address r i [] = refl
consume_loop-address r i (c ∷ cs) =
    let (r', flow) = step r (i + 1) c in
    ground (arith, step-address r (i + 1) c, consume_loop-address r' (i + 1) cs)

-- No call of `consume` changes the address that a parser holds, whatever the parser and the
-- bytes.
pub consume-address : (r : ReceiveFrame) (bytes : List ℕ) → (consume r bytes).0.address ≡ r.address
unfolding consume
consume-address r bytes = consume_loop-address r 0 bytes
