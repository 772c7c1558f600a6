-- ===== src/Frame/Receive.antt =====
-- `ReceiveFrame` of src/frame.rs: the incremental parser. Its accessors are the fields; the field
-- `data` is `payload` here.
pub mod Quiet
pub mod Finish
pub mod Header
pub mod Whole
use rctpower_protocol.Base.{ℕ, ◌+◌, ◌-◌, Bool, true, false, not, ◌&&◌, Option, none, some}
use rctpower_protocol.Base.{List, [], ◌∷◌, ◌++◌, ltb, ◌==◌, if◌then◌else◌, length, is_empty}
use rctpower_protocol.Base.{slice}
use rctpower_protocol.Error.{RctError, Result, ok, err, panic, ◌>>=◌}
use rctpower_protocol.Types.Command.{Command, byte, from_byte, is_plant_byte, is_long}
use rctpower_protocol.Codec.Crc.{crc16}
use rctpower_protocol.Codec.Decode.{index, be_u16, be_u32}
use rctpower_protocol.Frame.Send.{start_token, escape_token}

pub record ReceiveFrame : Type 0 where
  pub complete : Bool
  pub crc_ok : Bool
  pub escaping : Bool
  pub crc16_recv : ℕ
  pub frame_length : ℕ
  pub command : Option Command
  pub buffer : List ℕ
  pub raw : List ℕ
  pub consumed_bytes : ℕ
  pub frame_header_length : ℕ
  pub id : ℕ
  pub address : ℕ
  pub payload : List ℕ
  pub ignore_crc_mismatch : Bool

abbrev pub new : Bool → ReceiveFrame
new ignore = record {
  complete = false;
  crc_ok = false;
  escaping = false;
  crc16_recv = 0;
  frame_length = 0;
  command = none;
  buffer = [];
  raw = [];
  consumed_bytes = 0;
  frame_header_length = 7;
  id = 0;
  address = 0;
  payload = [];
  ignore_crc_mismatch = ignore;
}

unfoldable pub no_bytes : ReceiveFrame → Bool
no_bytes r = is_empty r.buffer

-- How the body of the loop in `consume` goes on: with the next byte, by `return Ok(i)`, by an
-- error, or by a panic.
pub data Flow : Type 0 where
  next returned : Flow
  failed : RctError → Flow
  panicked : Flow

abbrev u32_at : List ℕ → ℕ → Result ℕ
u32_at xs i = be_u32 xs i (i + 1) (i + 2) (i + 3)

-- `self.buffer[1]` has just been received.
unfoldable pub command_byte : ReceiveFrame → ℕ → ReceiveFrame × Flow
command_byte r i = elim (index r.buffer 1) [
  | ok b ↦ elim (from_byte b) [
    | none ↦ (r, failed (RctError.invalid_command b i))
    | some Command.extension ↦ (r, failed (RctError.invalid_command b i))
    | some cmd ↦ (
      record r {
        command = some cmd;
        frame_header_length =
            r.frame_header_length
            + (if is_plant_byte b then 4 else 0)
            + (if is_long cmd then 1 else 0);
      },
      next,
    )
  ]
  | _ ↦ (r, panicked)
]

-- The header is complete: the length, the address and the object id are read.
unfoldable pub parse_header : ReceiveFrame → Command → Result ReceiveFrame
parse_header r cmd = do
  data_length ← if is_long cmd then be_u16 r.buffer 2 3 else index r.buffer 2
  let oid_idx = if is_long cmd then 4 else 3
  if is_plant_byte (byte cmd)
      then (do
        address ← u32_at r.buffer oid_idx
        id ← u32_at r.buffer (oid_idx + 4)
        ok (record r {
          frame_length = r.frame_header_length - 8 + data_length + 2;
          address = address;
          id = id;
        }))
      else (do
        id ← u32_at r.buffer oid_idx
        ok (record r { frame_length = r.frame_header_length - 4 + data_length + 2; id = id }))

-- `none` is the panic of a slice whose start lies behind its end; else the checksum decides.
unfoldable pub finish_payload : ReceiveFrame → ℕ → ℕ → Option (List ℕ) → ReceiveFrame × Flow
finish_payload r i calc none = (r, panicked)
finish_payload r i calc (some bytes) =
    let r' = record r { payload = bytes } in
    if not r.crc_ok && not r.ignore_crc_mismatch
    then (r', failed (RctError.frame_crc_mismatch r.crc16_recv calc i))
    else (r', returned)

-- The checksum received, and the bytes that it covers.
unfoldable pub finish_crc : ReceiveFrame → ℕ → Result ℕ → Option (List ℕ) → ReceiveFrame × Flow
finish_crc r i (ok received) (some covered) =
    let calc = crc16 covered in
    finish_payload (record r { complete = true; crc16_recv = received; crc_ok = received == calc })
      i calc (slice r.buffer r.frame_header_length (length r.buffer - 2))
finish_crc r i (ok received) none = (record r { complete = true; crc16_recv = received }, panicked)
finish_crc r i _ covered = (record r { complete = true }, panicked)

-- The last byte of the frame is there.
unfoldable pub finish : ReceiveFrame → ℕ → ReceiveFrame × Flow
finish r i =
    let blen = length r.buffer in
    finish_crc r i (be_u16 r.buffer (blen - 2) (blen - 1)) (slice r.buffer 1 (blen - 2))

-- The last two checks on the length of the buffer.
unfoldable pub check_end : ReceiveFrame → ℕ → ReceiveFrame × Flow
check_end r i =
    let blen = length r.buffer in
    if ltb 0 r.frame_length && blen == r.frame_length
    then finish r i
    else if ltb 0 r.frame_length && ltb r.frame_length blen
    then (r, failed (RctError.frame_length_exceeded i))
    else (r, next)

-- The header check, for a parser that has its command.
unfoldable pub check_header : ReceiveFrame → ℕ → Option Command → ReceiveFrame × Flow
check_header r i none = check_end r i
check_header r i (some cmd) =
    if length r.buffer == r.frame_header_length && r.frame_length == 0
    then elim (parse_header r cmd) [ ok r' ↦ (r', next) | _ ↦ (r, panicked) ]
    else check_end r i

-- An unescaped byte is pushed, and the length of the buffer decides what it completes.
unfoldable pub accept : ReceiveFrame → ℕ → ℕ → ReceiveFrame × Flow
accept r i c =
    let r' = record r { buffer = r.buffer ++ (c ∷ []) } in
    if length r'.buffer == 2 then command_byte r' i else check_header r' i r'.command

-- A byte behind the start token.
unfoldable pub step_inside : ReceiveFrame → ℕ → ℕ → ReceiveFrame × Flow
step_inside r i c =
    let r' = record r { raw = r.raw ++ (c ∷ []) } in
    if r'.escaping
    then accept (record r' { escaping = false }) i c
    else if c == escape_token
    then (record r' { escaping = true }, next)
    else accept r' i c

-- One pass of the loop; `i` counts the bytes of this call, `c` included.
unfoldable pub step : ReceiveFrame → ℕ → ℕ → ReceiveFrame × Flow
step r0 i c =
    let r = record r0 { consumed_bytes = r0.consumed_bytes + 1 } in
    if is_empty r.buffer
    then (if c == start_token
        then (record r { raw = c ∷ []; buffer = c ∷ [] }, next)
        else (r, next))
    else step_inside r i c

-- `next` goes on with `rest`, all else ends the call.
abbrev pub after :
    ReceiveFrame × Flow → ℕ → (ReceiveFrame → ReceiveFrame × Result ℕ) → ReceiveFrame × Result ℕ
after (r, next) i rest = rest r
after (r, returned) i rest = (r, ok i)
after (r, failed e) i rest = (r, err e)
after (r, panicked) i rest = (r, panic)

-- The loop over the bytes that are left, after `i` of them.
unfoldable pub consume_loop : ReceiveFrame → ℕ → List ℕ → ReceiveFrame × Result ℕ
consume_loop r i [] = (r, ok i)
consume_loop r i (c ∷ cs) = after (step r (i + 1) c) (i + 1) (λ r'. consume_loop r' (i + 1) cs)

unfoldable pub consume : ReceiveFrame → List ℕ → ReceiveFrame × Result ℕ
consume r bytes = consume_loop r 0 bytes
