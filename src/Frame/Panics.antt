-- ===== src/Frame/Panics.antt =====
-- When the parser of src/frame.rs panics.
mod Bounds
use rctpower_protocol.Frame.Panics.Bounds.{index-some, be_u16-some, be_u32-some, slice-some}
use rctpower_protocol.Frame.Panics.Bounds.{parse_header-long, parse_header-short}
use rctpower_protocol.Base.{ℕ, ◌+◌, ◌-◌, ◌≤◌, ◌<◌, ◌≡◌, refl, sym, ap, ◌∙◌, arith, Bool}
use rctpower_protocol.Base.{true, false}
use rctpower_protocol.Base.{◌&&◌, ◌||◌, Option, none, some, leb, if◌then◌else◌, Option-cases}
use rctpower_protocol.Base.{Bool-cases, ◌⊎◌}
use rctpower_protocol.Base.{List, [], ◌∷◌, ◌++◌, inl, inr, slice, drop, take, length, ◌==◌}
use rctpower_protocol.Base.{get_elem?, get_elem?-ne-none}
use rctpower_protocol.Base.Bytes.{u16_from_be, u32_from_be}
use rctpower_protocol.Types.Command.Laws.{is_plant_byte-byte}
use rctpower_protocol.Frame.Chunks.{consume_loop-next, consume_loop-returned, consume_loop-failed}
use rctpower_protocol.Frame.Chunks.{consume_loop-panicked}
use rctpower_protocol.Frame.Chunks.Index.{view, goes_on, ends, fails, panics}
use rctpower_protocol.Frame.Receive.Quiet.{length-snoc}
use rctpower_protocol.Error.{Result, ok, panic}
use rctpower_protocol.Types.Command.{Command, is_long}
use rctpower_protocol.Codec.Decode.{index, be_u16, be_u32}
use rctpower_protocol.Frame.Receive.{ReceiveFrame, Flow, consume, consume_loop, step, step_inside}
use rctpower_protocol.Frame.Receive.{accept, command_byte, check_header, parse_header, check_end}
use rctpower_protocol.Frame.Receive.{finish, finish_crc, finish_payload}
use rctpower_protocol.Frame.Receive.{panicked}
use rctpower_protocol.Frame.Chunks.{consume_loop-next, consume_loop-returned, consume_loop-failed}
use rctpower_protocol.Frame.Chunks.{consume_loop-panicked}
use rctpower_protocol.Frame.Chunks.Index.{view, goes_on, ends, fails, panics}
use rctpower_protocol.Frame.Receive.Quiet.{length-snoc}

-- The header of a command has at least so many bytes.
abbrev at_least : Option Command → ℕ
at_least none = 7
at_least (some c) = if is_long c then 8 else 7

-- The header is long enough for what is read from it, and a frame length is known only when the
-- header is there.
abbrev pub sound : ReceiveFrame → Bool
sound r =
    leb (at_least r.command) r.frame_header_length
    && (r.frame_length == 0 || leb r.frame_header_length (length r.buffer))

-- The frame length leaves one byte behind the header, where the checksum takes two.
abbrev pub one_short : ReceiveFrame → Bool
one_short r = r.frame_length == r.frame_header_length + 1

-- What a parser is left as: sound, or one byte short with a panic.
abbrev guarded : ReceiveFrame × Flow → Bool
guarded (r, panicked) = one_short r
guarded (r, _) = sound r

header_least : (r : ReceiveFrame) → sound r ≡ true → 7 ≤ r.frame_header_length
header_least r h = ground arith

-- The last byte of a frame has come, behind a whole header.
finish-guarded :
    (r : ReceiveFrame) (i : ℕ)
    → sound r ≡ true
    → r.frame_length ≡ length r.buffer
    → r.frame_header_length < length r.buffer
    → guarded (finish r i) ≡ true
unfolding finish finish_crc finish_payload
finish-guarded r i h e header =
    let blen = length r.buffer in
    let many = header_least r h in
    let (sum, es) =
      be_u16-some r.buffer (blen - 2) (blen - 1) (omega (arith, many)) (omega (arith, many)) in
    let (covered, ec) =
      slice-some r.buffer 1 (blen - 2) (omega (arith, many)) (omega (arith, many)) in
    rw (es, ec) (ground arith)

check_end-guarded :
    (r : ReceiveFrame) (i : ℕ)
    → sound r ≡ true
    → (r.frame_length ≡ 0) ⊎ (r.frame_header_length < length r.buffer)
    → guarded (check_end r i) ≡ true
unfolding check_end
check_end-guarded r i h (inl none_yet) = ground arith
check_end-guarded r i h (inr header) = ground (arith, finish-guarded r i h)

parse_header-sound :
    (r r' : ReceiveFrame) (c : Command)
    → parse_header r c ≡ ok r'
    → r.command ≡ some c
    → sound r ≡ true
    → length r.buffer ≡ r.frame_header_length
    → sound r' ≡ true
unfolding parse_header
parse_header-sound r r' c e held h full = ground arith

parse_header-ok :
    (r : ReceiveFrame) (c : Command)
    → r.command ≡ some c
    → sound r ≡ true
    → length r.buffer ≡ r.frame_header_length
    → (r' : ReceiveFrame) × (parse_header r c ≡ ok r')
parse_header-ok r c held h full = elim (Bool-cases (is_long c)) [
  | inl long ↦
      let many : 8 ≤ length r.buffer = ground arith in
      let (n, en) = be_u16-some r.buffer 2 3 (omega (arith, many)) (omega (arith, many)) in
      let (id, ei) =
        be_u32-some r.buffer 4 5 6 7 (omega (arith, many)) (omega (arith, many))
          (omega (arith, many)) (omega (arith, many)) in
      (_, parse_header-long r c n id long en ei)
  | inr short ↦
      let many : 7 ≤ length r.buffer = ground arith in
      let (n, en) = index-some r.buffer 2 (omega (arith, many)) in
      let (id, ei) =
        be_u32-some r.buffer 3 4 5 6 (omega (arith, many)) (omega (arith, many))
          (omega (arith, many)) (omega (arith, many)) in
      (_, parse_header-short r c n id short en ei)
]

check_header-guarded :
    (r : ReceiveFrame) (i : ℕ) (c : Option Command)
    → r.command ≡ c
    → sound r ≡ true
    → (r.frame_length ≡ 0) ⊎ (r.frame_header_length < length r.buffer)
    → guarded (check_header r i c) ≡ true
unfolding check_header
check_header-guarded r i none held h place = check_end-guarded r i h place
check_header-guarded r i (some c) held h place =
    elim (Bool-cases (length r.buffer == r.frame_header_length && r.frame_length == 0)) [
      | inl here ↦
          let full : length r.buffer ≡ r.frame_header_length = ground arith in
          let (r', e) = parse_header-ok r c held h full in
          rw (here, e) (parse_header-sound r r' c e held h full)
      | inr elsewhere ↦ rw elsewhere (check_end-guarded r i h place)
    ]

command_byte-guarded :
    (r : ReceiveFrame) (i : ℕ)
    → sound r ≡ true
    → length r.buffer ≡ 2
    → r.frame_length ≡ 0
    → guarded (command_byte r i) ≡ true
unfolding command_byte
command_byte-guarded r i h two empty =
    let (b, e) = index-some r.buffer 1 (omega (arith, two)) in
    let many = header_least r h in rw (e, guarded) (ground arith)

accept-guarded : (r : ReceiveFrame) (i c : ℕ) → sound r ≡ true → guarded (accept r i c) ≡ true
unfolding accept
accept-guarded r i c h =
    let r' = record r { buffer = r.buffer ++ (c ∷ []) } in
    let longer = length-snoc r.buffer c in
    let still : sound r' ≡ true = ground arith in
    let place : (r.frame_length ≡ 0) ⊎ (r.frame_header_length < length r'.buffer) = ground arith in
    ground (
      arith,
      command_byte-guarded r' i still,
      check_header-guarded r' i r'.command refl still place,
    )

step_inside-guarded :
    (r : ReceiveFrame) (i c : ℕ) → sound r ≡ true → guarded (step_inside r i c) ≡ true
unfolding step_inside
step_inside-guarded r i c h =
    let r' = record r { raw = r.raw ++ (c ∷ []) } in
    ground (arith, accept-guarded (record r' { escaping = false }) i c h, accept-guarded r' i c h)

step-guarded : (r : ReceiveFrame) (i c : ℕ) → sound r ≡ true → guarded (step r i c) ≡ true
unfolding step
step-guarded r i c h =
    ground (arith, step_inside-guarded (record r { consumed_bytes = r.consumed_bytes + 1 }) i c h)

-- What a call of `consume` leaves: a sound parser, or one byte short with a panic.
abbrev pub Left : ReceiveFrame → Result ℕ → Type 0
Left r panic = (r.frame_length ≡ r.frame_header_length + 1)
Left r _ = (sound r ≡ true)

consume_loop-Left :
    (r : ReceiveFrame) (i : ℕ) (bytes : List ℕ)
    → sound r ≡ true
    → let (r', answer) = consume_loop r i bytes in Left r' answer
unfolding consume_loop
consume_loop-Left r i [] h = h
consume_loop-Left r i (c ∷ cs) h =
    let safe = step-guarded r (i + 1) c h in
    elim (view (step r (i + 1) c)) [
      | goes_on r1 e ↦
          let safe1 : sound r1 ≡ true = sym (ap guarded e) ∙ safe in
          rw (consume_loop-next r r1 i c cs e) (consume_loop-Left r1 (i + 1) cs safe1)
      | ends r1 e ↦ rw (consume_loop-returned r r1 i c cs e) (sym (ap guarded e) ∙ safe)
      | fails r1 x e ↦ rw (consume_loop-failed r r1 i c cs x e) (sym (ap guarded e) ∙ safe)
      | panics r1 e ↦
          let short : one_short r1 ≡ true = sym (ap guarded e) ∙ safe in
          rw (consume_loop-panicked r r1 i c cs e) (ground arith)
    ]

-- A parser is sound when its header length is at least what its command takes, and a known frame
-- length comes with the bytes of a whole header. On any bytes, a call of `consume` that answers
-- with a count or an error leaves a sound parser sound, and one that panics leaves a parser whose
-- frame length is one more than its header length, where the checksum takes two bytes.
pub consume-Left :
    (r : ReceiveFrame) (bytes : List ℕ)
    → sound r ≡ true
    → let (r', answer) = consume r bytes in Left r' answer
unfolding consume
consume-Left r bytes h = consume_loop-Left r 0 bytes h
