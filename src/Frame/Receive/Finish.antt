-- ===== src/Frame/Receive/Finish.antt =====
-- The last byte of a frame: the checksum is compared and the payload cut out.
use rctpower_protocol.Base.{ℕ, suc, ◌+◌, ◌-◌, ◌≡◌, refl, sym, ap, ◌∙◌, arith}
use rctpower_protocol.Base.{true, false, not, ◌&&◌, List, [], ◌∷◌, ◌++◌, append_assoc}
use rctpower_protocol.Base.{some, ◌==◌, if◌then◌else◌, length, length-append, slice, get_elem?}
use rctpower_protocol.Base.{slice_middle, get_elem?_behind}
use rctpower_protocol.Base.Bytes.{u16_from_be}
use mathlib.Core.Path.{ap₂}
use rctpower_protocol.Error.{RctError, ok}
use rctpower_protocol.Codec.Crc.{crc16}
use rctpower_protocol.Codec.Decode.{be_u16}
use rctpower_protocol.Frame.Receive.{ReceiveFrame, returned, failed, finish, finish_crc}
use rctpower_protocol.Frame.Receive.{finish_payload}

-- A buffer that holds a whole frame: behind the start token `header` and `payload`, then the
-- checksum in two bytes.
pub record IsWhole (r : ReceiveFrame) (start : ℕ) (header payload : List ℕ) (hi lo : ℕ)
    : Type 0 where
  pub buffer : r.buffer ≡ (start ∷ header) ++ (payload ++ (hi ∷ lo ∷ []))
  pub header_length : r.frame_header_length ≡ suc (length header)

be_u16_of :
    (xs : List ℕ) (i j : ℕ) {a b : ℕ}
    → get_elem? xs i ≡ some a
    → get_elem? xs j ≡ some b
    → be_u16 xs i j ≡ ok (u16_from_be a b)
be_u16_of xs i j p q = ground arith

module _ {r : ReceiveFrame} {start : ℕ} {header payload : List ℕ} {hi lo : ℕ}
    (w : IsWhole r start header payload hi lo) (i : ℕ) where
  blen : length r.buffer ≡ suc (length header + length payload) + 2
  blen =
      ap length w.buffer
      ∙ omega (
        arith,
        length-append header (payload ++ (hi ∷ lo ∷ [])),
        length-append payload (hi ∷ lo ∷ []),
      )

  -- The buffer cut before the checksum, and between its two bytes.
  before_hi : r.buffer ≡ ((start ∷ header) ++ payload) ++ (hi ∷ lo ∷ [])
  before_hi = w.buffer ∙ sym (append_assoc (start ∷ header) payload (hi ∷ lo ∷ []))

  before_lo : r.buffer ≡ (((start ∷ header) ++ payload) ++ (hi ∷ [])) ++ (lo ∷ [])
  before_lo = before_hi ∙ sym (append_assoc ((start ∷ header) ++ payload) (hi ∷ []) (lo ∷ []))

  hi_index : get_elem? r.buffer (length r.buffer - 2) ≡ some hi
  hi_index =
      get_elem?_behind r.buffer ((start ∷ header) ++ payload) hi (lo ∷ []) _ before_hi
        (omega (arith, blen, length-append header payload))

  lo_index : get_elem? r.buffer (length r.buffer - 1) ≡ some lo
  lo_index =
      get_elem?_behind r.buffer (((start ∷ header) ++ payload) ++ (hi ∷ [])) lo [] _ before_lo (
        omega
          (arith, blen, length-append header payload, length-append (header ++ payload) (hi ∷ [])))

  received : be_u16 r.buffer (length r.buffer - 2) (length r.buffer - 1) ≡ ok (u16_from_be hi lo)
  received = be_u16_of r.buffer (length r.buffer - 2) (length r.buffer - 1) hi_index lo_index

  covered : slice r.buffer 1 (length r.buffer - 2) ≡ some (header ++ payload)
  covered =
      slice_middle r.buffer (start ∷ []) (header ++ payload) (hi ∷ lo ∷ []) 1 (length r.buffer - 2)
        before_hi refl (omega (arith, blen, length-append header payload))

  cut : slice r.buffer r.frame_header_length (length r.buffer - 2) ≡ some payload
  cut =
      slice_middle r.buffer (start ∷ header) payload (hi ∷ lo ∷ []) r.frame_header_length
        (length r.buffer - 2) w.buffer w.header_length (omega (arith, blen))

  -- The parser as the last byte leaves it.
  unfoldable pub finished : ReceiveFrame
  finished = record r {
    complete = true;
    crc16_recv = u16_from_be hi lo;
    crc_ok = u16_from_be hi lo == crc16 (header ++ payload);
    payload = payload;
  }

  finish_lem : finish r i ≡ (
      if not finished.crc_ok && not r.ignore_crc_mismatch
      then (
        finished,
        failed (RctError.frame_crc_mismatch (u16_from_be hi lo) (crc16 (header ++ payload)) i),
      )
      else (finished, returned))
  unfolding finish finish_crc finish_payload finished
  finish_lem = ap₂ (finish_crc r i) received covered ∙ ap (finish_payload _ i _) cut

  pub finish_good : finished.crc_ok ≡ true → finish r i ≡ (finished, returned)
  finish_good good = rw (finish_lem, good) refl

  pub finish_bad :
      finished.crc_ok ≡ false
      → r.ignore_crc_mismatch ≡ false
      → finish r i ≡ (
        finished,
        failed (RctError.frame_crc_mismatch (u16_from_be hi lo) (crc16 (header ++ payload)) i),
      )
  finish_bad bad strict = rw (finish_lem, bad, strict) refl
