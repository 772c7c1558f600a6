-- ===== src/Frame/Corrupted.antt =====
-- Frames whose payload is changed in one byte on the way.
use rctpower_protocol.Base.{ℕ, ◌+◌, ◌/◌, ◌%◌, ◌^◌, ◌<◌, ◌≡◌, ◌≢◌, refl, sym, ap, ◌∙◌, arith}
use rctpower_protocol.Base.{false, List, [], ◌∷◌, ◌++◌, append_assoc, subst}
use rctpower_protocol.Base.{length, length-append, All, All-append}
use rctpower_protocol.Base.Bytes.{IsByte, IsBytes, u16_to_be, u16_from_be}
use rctpower_protocol.Base.Bytes.{u16_from_be-u16_to_be}
use rctpower_protocol.Error.{RctError, err}
use rctpower_protocol.Types.Command.{Command, byte, standard}
use rctpower_protocol.Codec.Crc.{crc16}
use rctpower_protocol.Codec.Crc.Detect.{crc16-detects_byte}
use rctpower_protocol.Frame.Send.{start_token, escape, frame_body, length_field}
use rctpower_protocol.Frame.Receive.{new, consume, consume_loop, after}
use rctpower_protocol.Frame.Receive.Finish.{finished, finish_bad}
use rctpower_protocol.Frame.Receive.Header.{Fits}
use rctpower_protocol.Frame.Receive.Whole.{header_of, wire, consume_loop_frame}
use rctpower_protocol.Frame.RoundTrip.{IsSendable, body_lem, wire_lem, filled-IsWhole}
use rctpower_protocol.Frame.RoundTrip.{length-wire}
use rctpower_protocol.Frame.RoundTrip.{not_extension, consume_junk, crc16-lt}

header_of-IsBytes :
    (c : Command) (payload : List ℕ) (id : ℕ) → IsBytes (byte c ∷ header_of c payload id)
unfolding byte length_field
header_of-IsBytes Command.read payload id = omega arith
header_of-IsBytes _ payload id = omega arith

-- The header depends on the length of the payload only.
header_of-length :
    (c : Command) (xs ys : List ℕ) (id : ℕ)
    → length xs ≡ length ys
    → header_of c xs id ≡ header_of c ys id
unfolding length_field
header_of-length c xs ys id e = rw e

-- A wire form whose checksum is not that of its body is refused by a strict receiver.
consume-wire_mismatch :
    (junk rest : List ℕ) (c : Command) (payload : List ℕ) (id hi lo : ℕ)
    → All (λ b. b ≢ start_token) junk
    → c ≢ Command.extension
    → Fits c (length payload)
    → id < 2 ^ 32
    → u16_from_be hi lo ≢ crc16 ((byte c ∷ header_of c payload id) ++ payload)
    → let frame = wire c payload id hi lo in
      (consume (new false) (junk ++ (frame ++ rest))).1
      ≡ err (
          RctError.frame_crc_mismatch
            (u16_from_be hi lo)
            (crc16 ((byte c ∷ header_of c payload id) ++ payload))
            (length junk + length frame))
consume-wire_mismatch junk rest c payload id hi lo clean ne fits small differ =
    let k = length junk in
    let frame = wire c payload id hi lo in
    let w = filled-IsWhole false k c payload id hi lo in
    let j =
      k
      + 2
      + length (escape (header_of c payload id))
      + length (escape ((payload ++ hi ∷ []) ++ lo ∷ [])) in
    let bad : (finished w j).crc_ok ≡ false = unfold finished in ground arith in
    let sum = crc16 ((byte c ∷ header_of c payload id) ++ payload) in
    ap (λ p. p.1)
      (consume_junk false junk (frame ++ rest) clean
        ∙ consume_loop_frame false k c payload id hi lo rest fits small k ne
        ∙ ap (λ f. after f j (λ r'. consume_loop r' j rest)) (finish_bad w j bad refl))
    ∙ ap (λ n. err (RctError.frame_crc_mismatch (u16_from_be hi lo) sum n))
        (omega (arith, length-wire c payload id hi lo))

same_length :
    (front back : List ℕ) (a b : ℕ) → length (front ++ (a ∷ back)) ≡ length (front ++ (b ∷ back))
same_length front back a b = length-append front (a ∷ back) ∙ sym (length-append front (b ∷ back))

IsSendable-arrived :
    (c : Command) (front back : List ℕ) (a b : ℕ)
    → IsSendable c (front ++ (a ∷ back))
    → IsSendable c (front ++ (b ∷ back))
IsSendable-arrived Command.extension front back a b h = h
IsSendable-arrived Command.read [] back a b h = cc
IsSendable-arrived Command.read (x ∷ front) back a b h = cc
IsSendable-arrived _ front back a b h = tt

-- The body of a frame with the byte `x` in its payload, cut at this byte.
cut :
    (front back : List ℕ) (x : ℕ) (c : Command) (id : ℕ)
    → (byte c ∷ header_of c (front ++ (x ∷ back)) id) ++ (front ++ (x ∷ back))
      ≡ ((byte c ∷ header_of c (front ++ (x ∷ back)) id) ++ front) ++ (x ∷ back)
cut front back x c id = simp append_assoc

-- A standard frame that can be sent, as for the round trip, has a payload that holds the byte
-- `a`, and the byte `b` other than `a` arrives in its place, with all else as it was sent and the
-- escapes of what arrives, behind bytes that are no start token and before any others. The strict
-- receiver answers with a checksum mismatch that holds the checksum sent and that of what
-- arrived, at the end of the frame.
pub consume-corrupted_byte :
    (junk rest front back : List ℕ) (a b : ℕ) (c : Command) (id address : ℕ)
    → All (λ x. x ≢ start_token) junk
    → IsSendable c (front ++ (a ∷ back))
    → Fits c (length (front ++ (a ∷ back)))
    → id < 2 ^ 32
    → IsBytes front
    → IsByte a
    → IsByte b
    → IsBytes back
    → a ≢ b
    → let crc = crc16 (frame_body c id (front ++ (a ∷ back)) address standard) in
      let arrived = frame_body c id (front ++ (b ∷ back)) address standard in
      let frame = start_token ∷ escape (arrived ++ u16_to_be crc) in
      (consume (new false) (junk ++ (frame ++ rest))).1
      ≡ err (RctError.frame_crc_mismatch crc (crc16 arrived) (length junk + length frame))
consume-corrupted_byte junk rest front back a b c id address clean sendable fits small fb ab bb kb
      ne =
    let sent = front ++ (a ∷ back) in
    let arrived = front ++ (b ∷ back) in
    let crc = crc16 (frame_body c id sent address standard) in
    let sum : u16_from_be (crc / 256 % 256) (crc % 256) ≡ crc =
      u16_from_be-u16_to_be crc (crc16-lt _) in
    let long : length sent ≡ length arrived = same_length front back a b in
    let ok_arrived = IsSendable-arrived c front back a b sendable in
    let head = byte c ∷ header_of c arrived id in
    let whole : frame_body c id arrived address standard ≡ head ++ arrived =
      body_lem c arrived id address ok_arrived in
    let body : crc ≡ crc16 ((head ++ front) ++ (a ∷ back)) =
      ap crc16 (body_lem c sent id address sendable ∙ cut front back a c id)
      ∙ ap (λ h. crc16 (((byte c ∷ h) ++ front) ++ (a ∷ back)))
          (header_of-length c sent arrived id long) in
    let differ : u16_from_be (crc / 256 % 256) (crc % 256) ≢ crc16 (head ++ arrived) = λ e.
      crc16-detects_byte (head ++ front) back a b
        (All-append IsByte head front (header_of-IsBytes c arrived id) fb) kb ab bb ne
        (sym body ∙ sym sum ∙ e ∙ ap crc16 (cut front back b c id)) in
    let same : start_token ∷ escape (frame_body c id arrived address standard ++ u16_to_be crc)
        ≡ wire c arrived id (crc / 256 % 256) (crc % 256) =
      ap (λ s. start_token ∷ escape (s ++ u16_to_be crc)) whole
      ∙ wire_lem c arrived id address ok_arrived (crc / 256 % 256) (crc % 256) in
    let n = length junk + length (wire c arrived id (crc / 256 % 256) (crc % 256)) in
    ap (λ f. (consume (new false) (junk ++ (f ++ rest))).1) same
    ∙ consume-wire_mismatch junk rest c arrived id (crc / 256 % 256) (crc % 256) clean
        (not_extension c sent sendable) (subst (Fits c) long fits) small differ
    ∙ ap (λ s. err (RctError.frame_crc_mismatch s (crc16 (head ++ arrived)) n)) sum
    ∙ ap (λ s. err (RctError.frame_crc_mismatch crc (crc16 s) n)) (sym whole)
    ∙ ap
        (λ f. err (
          RctError.frame_crc_mismatch crc (crc16 (frame_body c id arrived address standard))
            (length junk + length f)))
        (sym same)
