-- ===== src/Frame/Panics/Bounds.antt =====
-- Reads of the parser of src/frame.rs that are in bounds.
use rctpower_protocol.Base.{ℕ, ◌+◌, ◌-◌, ◌≤◌, ◌<◌, ◌≡◌, refl, arith}
use rctpower_protocol.Base.{true, false}
use rctpower_protocol.Base.{some, Option-cases}
use rctpower_protocol.Base.{List, inl, inr, slice, drop, take, length}
use rctpower_protocol.Base.{get_elem?, get_elem?-ne-none}
use rctpower_protocol.Base.Bytes.{u16_from_be, u32_from_be}
use rctpower_protocol.Types.Command.Laws.{is_plant_byte-byte}
use rctpower_protocol.Error.{ok}
use rctpower_protocol.Types.Command.{Command, is_long}
use rctpower_protocol.Codec.Decode.{index, be_u16, be_u32}
use rctpower_protocol.Frame.Receive.{ReceiveFrame}
use rctpower_protocol.Frame.Receive.{parse_header}

pub index-some : (xs : List ℕ) (i : ℕ) → i < length xs → (b : ℕ) × (index xs i ≡ ok b)
index-some xs i h = elim (Option-cases (get_elem? xs i)) [
  | inl e ↦ absurd (get_elem?-ne-none xs i h e)
  | inr (b, e) ↦ (b, rw (e, index) refl)
]

pub be_u16-some :
    (xs : List ℕ) (i j : ℕ) → i < length xs → j < length xs → (v : ℕ) × (be_u16 xs i j ≡ ok v)
be_u16-some xs i j hi hj =
    let (a, ea) = index-some xs i hi in
    let (b, eb) = index-some xs j hj in (u16_from_be a b, rw (ea, eb) refl)

pub be_u32-some :
    (xs : List ℕ) (i j k l : ℕ)
    → i < length xs
    → j < length xs
    → k < length xs
    → l < length xs
    → (v : ℕ) × (be_u32 xs i j k l ≡ ok v)
be_u32-some xs i j k l hi hj hk hl =
    let (a, ea) = index-some xs i hi in
    let (b, eb) = index-some xs j hj in
    let (c, ec) = index-some xs k hk in
    let (d, ed) = index-some xs l hl in (u32_from_be a b c d, rw (ea, eb, ec, ed) refl)

pub slice-some :
    (xs : List ℕ) (from to : ℕ)
    → from ≤ to
    → to ≤ length xs
    → (ys : List ℕ) × (slice xs from to ≡ some ys)
slice-some xs from to h k = (drop from (take to xs), ground arith)

-- What the header gives, from the length field and the object id.
pub parse_header-long :
    (r : ReceiveFrame) (c : Command) (n id : ℕ)
    → is_long c ≡ true
    → be_u16 r.buffer 2 3 ≡ ok n
    → be_u32 r.buffer 4 5 6 7 ≡ ok id
    → parse_header r c ≡ ok (record r { frame_length = r.frame_header_length - 4 + n + 2; id = id })
unfolding parse_header
parse_header-long r c n id long en ei = rw (long, is_plant_byte-byte c, en, ei) refl

pub parse_header-short :
    (r : ReceiveFrame) (c : Command) (n id : ℕ)
    → is_long c ≡ false
    → index r.buffer 2 ≡ ok n
    → be_u32 r.buffer 3 4 5 6 ≡ ok id
    → parse_header r c ≡ ok (record r { frame_length = r.frame_header_length - 4 + n + 2; id = id })
unfolding parse_header
parse_header-short r c n id short en ei = rw (short, is_plant_byte-byte c, en, ei) refl
