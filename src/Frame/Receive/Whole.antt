-- ===== src/Frame/Receive/Whole.antt =====
-- The receiver on a whole standard frame, whatever its two bytes of checksum are.
use rctpower_protocol.Base.{ℕ, ◌+◌, ◌^◌, ◌<◌, ◌≤◌, ◌≡◌, ◌≢◌, refl, ap, ◌∙◌, arith}
use rctpower_protocol.Base.{Bool, inl, inr, List, [], ◌∷◌, ◌++◌, append_assoc}
use rctpower_protocol.Base.{length, length-append, Bool-cases}
use rctpower_protocol.Base.Bytes.{u32_to_be}
use rctpower_protocol.Types.Command.{Command, byte, is_long, standard}
use rctpower_protocol.Frame.Send.{start_token, escape, escape_byte, length_field}
use rctpower_protocol.Frame.Receive.{ReceiveFrame, accept, check_header, check_end, finish}
use rctpower_protocol.Frame.Receive.{consume_loop, after}
use rctpower_protocol.Frame.Receive.Quiet.{wired, stored, stored-snoc, length-snoc}
use rctpower_protocol.Frame.Receive.Quiet.{consume_loop-escape-snoc}
use rctpower_protocol.Frame.Receive.Header.{waiting, commanded, header_length, headed, Fits}
use rctpower_protocol.Frame.Receive.Header.{consume_loop_command, consume_loop_header}

-- The byte that completes the length announced by the header ends in `finish`.
accept_end :
    (r : ReceiveFrame) (i b : ℕ)
    → 2 ≤ length r.buffer
    → r.frame_length ≡ length r.buffer + 1
    → accept r i b ≡ finish (record r { buffer = r.buffer ++ (b ∷ []) }) i
unfolding accept check_header check_end
accept_end r i b h e = ground (arith, length-snoc r.buffer b)

-- Command, length and object id, as `make_frame` writes them.
abbrev pub header_of : Command → List ℕ → ℕ → List ℕ
header_of c payload id = length_field c standard payload ++ u32_to_be id

pub length-header_of :
    (c : Command) (payload : List ℕ) (id : ℕ)
    → length (header_of c payload id) + 2 ≡ header_length c
unfolding length_field
length-header_of c payload id = elim (Bool-cases (is_long c)) [
  | inl long ↦ rw long
  | inr short ↦ rw short
]

-- The parser with the whole frame in its buffer, before it is judged.
abbrev pub filled : Bool → ℕ → Command → List ℕ → ℕ → ℕ → ℕ → ReceiveFrame
filled ignore k c payload id hi lo =
    stored
      (headed (commanded ignore k c (header_length c)) (header_of c payload id) (4 + length payload)
        id)
      ((payload ++ hi ∷ []) ++ lo ∷ [])

-- The bytes of the frame, as they stand on the wire.
abbrev pub wire : Command → List ℕ → ℕ → ℕ → ℕ → List ℕ
wire c payload id hi lo =
    start_token ∷ escape_byte (byte c)
    ++ (escape (header_of c payload id) ++ escape ((payload ++ hi ∷ []) ++ lo ∷ []))

module _ (ignore : Bool) (k : ℕ) (c : Command) (payload : List ℕ) (id hi lo : ℕ) (rest : List ℕ)
    (fits : Fits c (length payload)) (small : id < 2 ^ 32) where
  abbrev at_payload : ReceiveFrame
  at_payload =
      headed (commanded ignore k c (header_length c)) (header_of c payload id) (4 + length payload)
        id

  -- From the payload on.
  consume_loop_payload :
      (i : ℕ)
      → let bytes = (payload ++ hi ∷ []) ++ lo ∷ [] in
        let j = i + length (escape bytes) in
        consume_loop at_payload i (escape bytes ++ rest)
        ≡ after (finish (filled ignore k c payload id hi lo) j) j (λ r'. consume_loop r' j rest)
  consume_loop_payload i =
      let bytes = (payload ++ hi ∷ []) ++ lo ∷ [] in
      let j = i + length (escape bytes) in
      consume_loop-escape-snoc (payload ++ hi ∷ []) lo at_payload i rest (omega arith) refl
        (inr (omega arith, omega (arith, length-header_of c payload id, length-snoc payload hi)))
      ∙ ap (λ f. after f j (λ r'. consume_loop r' j rest))
          (accept_end (wired (stored at_payload (payload ++ hi ∷ [])) (escape_byte lo)) j lo
              (omega arith) ends
            ∙ ap (λ s. finish s j) (stored-snoc at_payload (payload ++ hi ∷ []) lo))
    where
      ends : at_payload.frame_length ≡ length (at_payload.buffer ++ (payload ++ hi ∷ [])) + 1
      ends = omega (
        arith,
        length-header_of c payload id,
        length-snoc payload hi,
        length-append (header_of c payload id) (payload ++ hi ∷ []),
      )

  -- A whole frame is stored, and its last byte ends in `finish`.
  pub consume_loop_frame :
      (i : ℕ)
      → c ≢ Command.extension
      → let j =
          i
          + 2
          + length (escape (header_of c payload id))
          + length (escape ((payload ++ hi ∷ []) ++ lo ∷ [])) in
        consume_loop (waiting ignore k) i (wire c payload id hi lo ++ rest)
        ≡ after (finish (filled ignore k c payload id hi lo) j) j (λ r'. consume_loop r' j rest)
  consume_loop_frame i ne =
      ap (λ w. consume_loop (waiting ignore k) i (start_token ∷ w)) regroup
      ∙ consume_loop_command c ignore k i _ ne
      ∙ consume_loop_header ignore k (i + 2) c payload id _ fits small
      ∙ consume_loop_payload (i + 2 + length (escape (header_of c payload id)))
    where
      regroup :
          (escape_byte (byte c)
              ++ (escape (header_of c payload id) ++ escape ((payload ++ hi ∷ []) ++ lo ∷ [])))
            ++ rest
          ≡ escape_byte (byte c)
            ++ (escape (header_of c payload id)
                ++ (escape ((payload ++ hi ∷ []) ++ lo ∷ []) ++ rest))
      regroup = simp append_assoc
