-- ===== src/Client/Reads.antt =====
-- The loops that read a frame from a socket, on frames that arrive in several reads.
use rctpower_protocol.Base.{ℕ, ◌+◌, ◌≡◌, ◌≢◌, refl, sym, ap, ◌∙◌, arith, true, false, List, []}
use rctpower_protocol.Base.{◌∷◌, ◌++◌, map}
use rctpower_protocol.Base.{All, flatten, length, subst, ◌^◌, ◌<◌}
use rctpower_protocol.Error.{ok-injective, Result, ok}
use rctpower_protocol.Frame.Receive.{ReceiveFrame, consume, consume_loop}
use rctpower_protocol.Frame.Checked.{waits}
use rctpower_protocol.Frame.Chunks.{early, late, consume_loop-Split, consume_loop-reindex}
use rctpower_protocol.Types.Command.{Command, standard}
use rctpower_protocol.Frame.Send.{make_frame, start_token}
use rctpower_protocol.Frame.Receive.{new}
use rctpower_protocol.Frame.Receive.Header.{Fits}
use rctpower_protocol.Frame.RoundTrip.{IsSendable, Received, consume-make_frame}
use rctpower_protocol.Client.Network.{Io, done}

-- What the loops have in common: a complete frame ends them, and a read of some bytes is consumed.
pub record Receives (receive : ReceiveFrame → List (Io (List ℕ)) → Result ReceiveFrame)
    : Type 0 where
  pub on_complete :
      (rx : ReceiveFrame) (events : List (Io (List ℕ)))
      → rx.complete ≡ true
      → receive rx events ≡ ok rx
  pub on_bytes :
      (rx r : ReceiveFrame) (b : ℕ) (bytes : List ℕ) (n : ℕ) (events : List (Io (List ℕ)))
      → rx.complete ≡ false
      → consume rx (b ∷ bytes) ≡ (r, ok n)
      → receive rx (done (b ∷ bytes) ∷ events) ≡ receive r events

module _ (receive : ReceiveFrame → List (Io (List ℕ)) → Result ReceiveFrame)
    (loop : Receives receive) where
  receive_some :
      (rx r : ReceiveFrame) (bytes : List ℕ) (n : ℕ) (events : List (Io (List ℕ)))
      → rx.complete ≡ false
      → bytes ≢ []
      → consume rx bytes ≡ (r, ok n)
      → receive rx (done bytes ∷ events) ≡ receive r events
  receive_some rx r [] n events h some_bytes e = absurd (some_bytes refl)
  receive_some rx r (b ∷ bytes) n events h some_bytes e = loop.on_bytes rx r b bytes n events h e

  -- What one call of `consume` makes of the bytes, the loop makes of them in any pieces.
  pub receive_chunks :
      (chunks : List (List ℕ)) (rx r : ReceiveFrame) (m : ℕ) (more : List (Io (List ℕ)))
      → waits rx ≡ true
      → All (λ c. c ≢ []) chunks
      → consume rx (flatten chunks) ≡ (r, ok m)
      → r.complete ≡ true
      → receive rx (map done chunks ++ more) ≡ ok r
  unfolding consume consume_loop flatten
  receive_chunks [] rx r m more h some_bytes e full =
      let same : rx.complete ≡ r.complete = ap (λ p. p.0.complete) e in absurd (ground arith)
  receive_chunks (c ∷ chunks) rx r m more h (some_byte, some_bytes) e full =
      let waiting : rx.complete ≡ false = ground arith in
      elim (consume_loop-Split c (flatten chunks) rx r 0 m h e) [
        | early f ↦
            receive_some rx r c m (map done chunks ++ more) waiting some_byte f
            ∙ loop.on_complete r (map done chunks ++ more) full
        | late r' f w g ↦
            let (n, g', counted) =
              consume_loop-reindex (flatten chunks) r' r (0 + length c) 0 m g in
            receive_some rx r' c _ (map done chunks ++ more) waiting some_byte f
            ∙ receive_chunks chunks r' r n more w some_bytes g' full
      ]

-- A standard frame that `make_frame` built, behind bytes that are no start token.
pub record IsFrame (c : Command) (payload : List ℕ) (id : ℕ) (junk frame : List ℕ) : Type 0 where
  pub clean : All (λ b. b ≢ start_token) junk
  pub sendable : IsSendable c payload
  pub fits : Fits c (length payload)
  pub small : id < 2 ^ 32
  pub address : ℕ
  pub built : make_frame c id payload address standard ≡ ok frame

-- The reads give the bytes in pieces, none of them empty, and `more` after them.
pub record InPieces (bytes : List ℕ) (reads : List (Io (List ℕ))) : Type 0 where
  pub chunks : List (List ℕ)
  pub more : List (Io (List ℕ))
  pub some_bytes : All (λ c. c ≢ []) chunks
  pub whole : flatten chunks ≡ bytes
  pub events : reads ≡ map done chunks ++ more

-- A new parser on a frame that arrives in one call.
pub consume-frame :
    (c : Command) (payload : List ℕ) (id : ℕ) (junk frame rest : List ℕ)
    → IsFrame c payload id junk frame
    → (r : ReceiveFrame) × (consume (new false) (junk ++ (frame ++ rest))
        ≡ (r, ok (length junk + length frame)))
      × Received r c id payload frame (length junk + length frame)
consume-frame c payload id junk frame rest f =
    let (frame', built', (r, received, holds)) =
      consume-make_frame false junk rest c payload id f.address f.clean f.sendable f.fits f.small in
    let same : frame' ≡ frame = ok-injective frame' frame (sym built' ∙ f.built) in
    (
      r,
      subst (λ w. consume (new false) (junk ++ (w ++ rest)) ≡ (r, ok (length junk + length w))) same
          received,
      subst (λ w. Received r c id payload w (length junk + length w)) same holds,
    )

-- The loop that reads a frame in pieces leaves its parser.
pub receive_frame :
    (receive : ReceiveFrame → List (Io (List ℕ)) → Result ReceiveFrame) (c : Command)
    (payload : List ℕ) (id : ℕ) (junk frame rest : List ℕ) (reads : List (Io (List ℕ)))
    → Receives receive
    → IsFrame c payload id junk frame
    → InPieces (junk ++ (frame ++ rest)) reads
    → (r : ReceiveFrame) × (receive (new false) reads ≡ ok r)
      × (r.payload ≡ payload)
      × (r.raw ≡ frame)
receive_frame receive c payload id junk frame rest reads loop f pieces =
    let (r, received, holds) = consume-frame c payload id junk frame rest f in
    (
      r,
      ap (receive (new false)) pieces.events
          ∙ receive_chunks receive loop pieces.chunks (new false) r _ pieces.more refl
              pieces.some_bytes (ap (consume (new false)) pieces.whole ∙ received) holds.complete,
      holds.bytes,
      holds.wire_bytes,
    )
