-- ===== src/Frame/RoundTrip.antt =====
-- Frames from `make_frame` to `consume`, over bytes that arrive in one call.
use rctpower_protocol.Base.{ℕ, ◌+◌, ◌/◌, ◌%◌, ◌^◌, ◌<◌, ◌≡◌, ◌≢◌, refl, sym, ap, ◌∙◌, arith}
use rctpower_protocol.Base.{Bool, true, List, [], ◌∷◌, ◌++◌, append_assoc}
use rctpower_protocol.Base.{length, length-append, All, ==_iff, some}
use rctpower_protocol.Base.Bytes.{u16_to_be, u16_from_be, u16_from_be-u16_to_be}
use mathlib.Core.Path.{ap₂}
use rctpower_protocol.Error.{ok}
use rctpower_protocol.Types.Command.{Command, byte, standard}
use rctpower_protocol.Codec.Crc.{crc16}
use rctpower_protocol.Frame.Send.{start_token, escape, escape_byte, make_frame, frame_body}
use rctpower_protocol.Frame.Send.{payload_field, address_field}
use rctpower_protocol.Frame.Receive.{ReceiveFrame, new, consume, consume_loop, after}
use rctpower_protocol.Frame.Receive.Quiet.{escape-append}
use rctpower_protocol.Frame.Receive.Finish.{IsWhole, finished, finish_good}
use rctpower_protocol.Frame.Receive.Header.{waiting, Fits, consume_loop_junk}
use rctpower_protocol.Frame.Receive.Whole.{header_of, filled, wire, length-header_of}
use rctpower_protocol.Frame.Receive.Whole.{consume_loop_frame}

-- READ frames are built without a payload; a given one would only spoil the length field.
abbrev pub IsSendable : Command → List ℕ → Type 0
IsSendable Command.extension payload = ⊥
IsSendable Command.read payload = (payload ≡ [])
IsSendable _ payload = Unit {0}

sent_payload :
    (c : Command) (payload : List ℕ) → IsSendable c payload → payload_field c payload ≡ payload
unfolding payload_field
sent_payload Command.extension payload h = elim h [ ]
sent_payload Command.read payload h = sym h
sent_payload _ payload h = refl

pub not_extension : (c : Command) (payload : List ℕ) → IsSendable c payload → c ≢ Command.extension
not_extension Command.extension payload h e = elim h [ ]
not_extension Command.read payload h e = cc
not_extension _ payload h e = cc

module _ (c : Command) (payload : List ℕ) (id address : ℕ) (sendable : IsSendable c payload) where
  pub body_lem :
      frame_body c id payload address standard ≡ (byte c ∷ header_of c payload id) ++ payload
  unfolding frame_body address_field
  body_lem = rw (sent_payload c payload sendable) (simp append_assoc)

  escape-cons_lem : (x : ℕ) (xs : List ℕ) → escape (x ∷ xs) ≡ escape_byte x ++ escape xs
  unfolding escape
  escape-cons_lem x xs = refl

  -- The wire form of the body with two bytes of checksum.
  pub wire_lem :
      (hi lo : ℕ)
      → start_token ∷ escape (((byte c ∷ header_of c payload id) ++ payload) ++ (hi ∷ lo ∷ []))
        ≡ wire c payload id hi lo
  wire_lem hi lo =
      ap (λ w. start_token ∷ w)
        (escape-cons_lem (byte c) _
          ∙ ap (λ w. escape_byte (byte c) ++ w)
              (ap escape regroup
                ∙ escape-append (header_of c payload id) ((payload ++ hi ∷ []) ++ lo ∷ [])))
    where
      regroup :
          (header_of c payload id ++ payload) ++ (hi ∷ lo ∷ [])
          ≡ header_of c payload id ++ ((payload ++ hi ∷ []) ++ lo ∷ [])
      regroup = simp append_assoc

  make_frame_lem :
      let crc = crc16 (frame_body c id payload address standard) in
      make_frame c id payload address standard
      ≡ ok (wire c payload id (crc / 256 % 256) (crc % 256))
  unfolding make_frame
  make_frame_lem =
      let crc = crc16 (frame_body c id payload address standard) in
      ap ok (
        ap (λ b. start_token ∷ escape (b ++ u16_to_be crc)) body_lem
        ∙ wire_lem (crc / 256 % 256) (crc % 256))

pub filled-IsWhole :
    (ignore : Bool) (k : ℕ) (c : Command) (payload : List ℕ) (id hi lo : ℕ)
    → IsWhole
        (filled ignore k c payload id hi lo)
        start_token
        (byte c ∷ header_of c payload id)
        payload
        hi
        lo
filled-IsWhole ignore k c payload id hi lo = record {
  buffer = simp append_assoc;
  header_length = omega (arith, length-header_of c payload id);
}

pub crc16-lt : (bs : List ℕ) → crc16 bs < 2 ^ 16
unfolding crc16
crc16-lt bs = omega arith

-- What the receiver holds after it has consumed `n` bytes that end in `frame`.
pub record Received (r : ReceiveFrame) (c : Command) (id : ℕ) (payload frame : List ℕ) (n : ℕ)
    : Type 0 where
  pub complete : r.complete ≡ true
  pub crc_ok : r.crc_ok ≡ true
  pub command : r.command ≡ some c
  pub object_id : r.id ≡ id
  pub bytes : r.payload ≡ payload
  pub wire_bytes : r.raw ≡ frame
  pub consumed : r.consumed_bytes ≡ n

escape_byte-byte : (c : Command) → escape_byte (byte c) ≡ byte c ∷ []
unfolding escape_byte byte
escape_byte-byte Command.read = refl
escape_byte-byte _ = refl

pub length-wire :
    (c : Command) (payload : List ℕ) (id hi lo : ℕ)
    → length (wire c payload id hi lo)
      ≡ 2
        + length (escape (header_of c payload id))
        + length (escape ((payload ++ hi ∷ []) ++ lo ∷ []))
length-wire c payload id hi lo = rw (escape_byte-byte c) (
    omega (
      arith,
      length-append (escape (header_of c payload id)) (escape ((payload ++ hi ∷ []) ++ lo ∷ [])),
    ))

finished-Received :
    (ignore : Bool) (k : ℕ) (c : Command) (payload : List ℕ) (id hi lo i : ℕ)
    → u16_from_be hi lo ≡ crc16 ((byte c ∷ header_of c payload id) ++ payload)
    → Received
        (finished (filled-IsWhole ignore k c payload id hi lo) i)
        c
        id
        payload
        (wire c payload id hi lo)
        (k + length (wire c payload id hi lo))
unfolding finished
finished-Received ignore k c payload id hi lo i e = record {
  complete = refl;
  crc_ok = (==_iff _ _).1 e;
  command = refl;
  object_id = refl;
  bytes = refl;
  wire_bytes = rw (escape_byte-byte c);
  consumed = omega (arith, length-wire c payload id hi lo);
}

pub consume_junk :
    (ignore : Bool) (junk rest : List ℕ)
    → All (λ b. b ≢ start_token) junk
    → consume (new ignore) (junk ++ rest)
      ≡ consume_loop (waiting ignore (length junk)) (length junk) rest
unfolding consume
consume_junk ignore junk rest clean =
    consume_loop_junk junk ignore 0 0 rest clean
    ∙ ap₂ (λ m j. consume_loop (waiting ignore m) j rest) (omega arith) (omega arith)

-- A wire form with the right checksum is received whole, behind any bytes that are no start token
-- and before any bytes at all.
consume-wire :
    (ignore : Bool) (junk rest : List ℕ) (c : Command) (payload : List ℕ) (id hi lo : ℕ)
    → All (λ b. b ≢ start_token) junk
    → c ≢ Command.extension
    → Fits c (length payload)
    → id < 2 ^ 32
    → u16_from_be hi lo ≡ crc16 ((byte c ∷ header_of c payload id) ++ payload)
    → let frame = wire c payload id hi lo in
      (r : ReceiveFrame) × (consume (new ignore) (junk ++ (frame ++ rest))
        ≡ (r, ok (length junk + length frame)))
      × Received r c id payload frame (length junk + length frame)
consume-wire ignore junk rest c payload id hi lo clean ne fits small e =
    let k = length junk in
    let frame = wire c payload id hi lo in
    let w = filled-IsWhole ignore k c payload id hi lo in
    let j =
      k
      + 2
      + length (escape (header_of c payload id))
      + length (escape ((payload ++ hi ∷ []) ++ lo ∷ [])) in
    let good : (finished w j).crc_ok ≡ true =
      (finished-Received ignore k c payload id hi lo j e).crc_ok in
    (
      finished w j,
      consume_junk ignore junk (frame ++ rest) clean
          ∙ consume_loop_frame ignore k c payload id hi lo rest fits small k ne
          ∙ ap (λ f. after f j (λ r'. consume_loop r' j rest)) (finish_good w j good)
          ∙ ap (λ n. (finished w j, ok n)) (omega (arith, length-wire c payload id hi lo)),
      finished-Received ignore k c payload id hi lo j e,
    )

-- For a standard frame of any command but the extension, whose payload fits the length field (and
-- is empty for READ) and whose object id is a u32, `make_frame` gives a frame. The receiver that
-- is fed this frame behind bytes which are no start token, and before any others, answers with
-- the count of bytes up to the end of the frame. It is complete, its checksum is right, and it
-- holds the command, the object id and the payload that were put in, and the frame's wire bytes
-- with all escapes.
pub consume-make_frame :
    (ignore : Bool) (junk rest : List ℕ) (c : Command) (payload : List ℕ) (id address : ℕ)
    → All (λ b. b ≢ start_token) junk
    → IsSendable c payload
    → Fits c (length payload)
    → id < 2 ^ 32
    → (frame : List ℕ) × (make_frame c id payload address standard ≡ ok frame)
      × ((r : ReceiveFrame) × (consume (new ignore) (junk ++ (frame ++ rest))
            ≡ (r, ok (length junk + length frame)))
          × Received r c id payload frame (length junk + length frame))
consume-make_frame ignore junk rest c payload id address clean sendable fits small =
    let crc = crc16 (frame_body c id payload address standard) in
    (
      wire c payload id (crc / 256 % 256) (crc % 256),
      make_frame_lem c payload id address sendable,
      consume-wire ignore junk rest c payload id (crc / 256 % 256) (crc % 256) clean
          (not_extension c payload sendable) fits small
          (u16_from_be-u16_to_be crc (crc16-lt (frame_body c id payload address standard))
            ∙ ap crc16 (body_lem c payload id address sendable)),
    )
