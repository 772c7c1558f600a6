-- ===== src/Frame/Receive/Quiet.antt =====
-- The receiver on escaped bytes: each escape sequence acts as the one byte it stands for, and
-- bytes inside the header or inside the payload are only stored.
use rctpower_protocol.Base.{ℕ, ◌+◌, ◌≤◌, ◌<◌, ◌≡◌, ◌≢◌, refl, ap, ◌∙◌, ◌⊎◌, inl, inr, arith}
use rctpower_protocol.Base.{true, false, List, [], ◌∷◌, ◌++◌, append-nil, append_assoc, length}
use rctpower_protocol.Base.{length-append, Bool-cases, ◌==◌, ◌||◌}
use native.Mathlib.Nat.{add_assoc, add-zero}
use mathlib.Core.Path.{ap₂}
use rctpower_protocol.Frame.Send.{escape, escape_byte, start_token, escape_token}
use rctpower_protocol.Frame.Receive.{ReceiveFrame, next, accept, check_end, check_header}
use rctpower_protocol.Frame.Receive.{step, step_inside, after, consume_loop}

-- A parser that is past the start token, and not behind an escape token.
pub record IsInside (r : ReceiveFrame) : Type 0 where
  pub started : 1 ≤ length r.buffer
  pub plain : r.escaping ≡ false

-- The wire bytes `ws` are recorded; what they carry is still to be stored.
abbrev pub wired : ReceiveFrame → List ℕ → ReceiveFrame
wired r ws = record r {
  raw = r.raw ++ ws;
  consumed_bytes = r.consumed_bytes + length ws;
  escaping = false;
}

-- The bytes `bs` are stored.
abbrev pub stored : ReceiveFrame → List ℕ → ReceiveFrame
stored r bs = let r' = wired r (escape bs) in record r' { buffer = r.buffer ++ bs }

step_plain :
    (r : ReceiveFrame) (i c : ℕ)
    → IsInside r
    → c ≢ escape_token
    → step r i c ≡ accept (wired r (c ∷ [])) i c
unfolding step step_inside
step_plain r i c h ne = ground arith

-- The parser behind an escape token.
abbrev escape_seen : ReceiveFrame → ReceiveFrame
escape_seen r = record r {
  raw = r.raw ++ (escape_token ∷ []);
  consumed_bytes = r.consumed_bytes + 1;
  escaping = true;
}

step_escape :
    (r : ReceiveFrame) (i : ℕ) → IsInside r → step r i escape_token ≡ (escape_seen r, next)
unfolding step step_inside
step_escape r i h = ground arith

step_escaped :
    (r : ReceiveFrame) (i c : ℕ)
    → 1 ≤ length r.buffer
    → r.escaping ≡ true
    → step r i c ≡ accept (wired r (c ∷ [])) i c
unfolding step step_inside
step_escaped r i c h e = ground arith

-- The bytes that stand for `b` on the wire are one round of `accept`.
pub consume_loop-escape_byte :
    (r : ReceiveFrame) (i b : ℕ) (rest : List ℕ)
    → IsInside r
    → consume_loop r i (escape_byte b ++ rest)
      ≡ after
          (accept (wired r (escape_byte b)) (i + length (escape_byte b)) b)
          (i + length (escape_byte b))
          (λ r'. consume_loop r' (i + length (escape_byte b)) rest)
unfolding consume_loop escape_byte
consume_loop-escape_byte r i b rest h =
    elim (Bool-cases ((b == start_token) || (b == escape_token))) [
      | inl token ↦
          rw
            (
              token,
              step_escape r (i + 1) h,
              step_escaped (escape_seen r) (i + 1 + 1) b h.started refl,
              append_assoc r.raw (escape_token ∷ []) (b ∷ []),
              add_assoc i 1 1,
              add_assoc r.consumed_bytes 1 1,
            )
            refl
      | inr other ↦ rw (other, step_plain r (i + 1) b h (ground arith)) refl
    ]

pub length-snoc : (xs : List ℕ) (x : ℕ) → length (xs ++ (x ∷ [])) ≡ length xs + 1
length-snoc xs x = length-append xs (x ∷ [])

-- No check on the length fires as long as at most `n` bytes are stored: the header is not complete
-- yet, or it is and the frame is not.
abbrev pub Quiet : ReceiveFrame → ℕ → Type 0
Quiet r n =
    (r.frame_length ≡ 0) × (n < r.frame_header_length) ⊎ (0 < r.frame_length) × (n < r.frame_length)

accept-Quiet :
    (r : ReceiveFrame) (i c : ℕ)
    → 2 ≤ length r.buffer
    → Quiet r (length r.buffer + 1)
    → accept r i c ≡ (record r { buffer = r.buffer ++ (c ∷ []) }, next)
unfolding accept check_header check_end
accept-Quiet r i c h q = ground (arith, length-snoc r.buffer c)

escape-cons :
    (b : ℕ) (bs rest : List ℕ) → escape (b ∷ bs) ++ rest ≡ escape_byte b ++ (escape bs ++ rest)
unfolding escape
escape-cons b bs rest = append_assoc (escape_byte b) (escape bs) rest

pub escape-append : (xs ys : List ℕ) → escape (xs ++ ys) ≡ escape xs ++ escape ys
unfolding escape
escape-append [] ys = refl
escape-append (x ∷ xs) ys =
    rw (escape-append xs ys, append_assoc (escape_byte x) (escape xs) (escape ys))

length-escape-cons :
    (b : ℕ) (bs : List ℕ) → length (escape (b ∷ bs)) ≡ length (escape_byte b) + length (escape bs)
unfolding escape
length-escape-cons b bs = length-append (escape_byte b) (escape bs)

-- The parser with the byte `b` stored.
abbrev stored_byte : ReceiveFrame → ℕ → ReceiveFrame
stored_byte r b = let r' = wired r (escape_byte b) in record r' { buffer = r.buffer ++ (b ∷ []) }

stored-nil : (r : ReceiveFrame) → r.escaping ≡ false → stored r [] ≡ r
unfolding escape
stored-nil r e = ground (arith, append-nil r.raw, append-nil r.buffer)

stored-cons :
    (r : ReceiveFrame) (b : ℕ) (bs : List ℕ) → stored (stored_byte r b) bs ≡ stored r (b ∷ bs)
unfolding escape
stored-cons r b bs =
    rw
      (
        append_assoc r.raw (escape_byte b) (escape bs),
        append_assoc r.buffer (b ∷ []) bs,
        length-append (escape_byte b) (escape bs),
        add_assoc r.consumed_bytes (length (escape_byte b)) (length (escape bs)),
      )
      refl

-- One stored byte.
store_one :
    (r : ReceiveFrame) (i b : ℕ) (rest : List ℕ)
    → 2 ≤ length r.buffer
    → r.escaping ≡ false
    → Quiet r (length r.buffer + 1)
    → consume_loop r i (escape_byte b ++ rest)
      ≡ consume_loop (stored_byte r b) (i + length (escape_byte b)) rest
store_one r i b rest h e q =
    let j = i + length (escape_byte b) in
    consume_loop-escape_byte r i b rest (record { started = omega arith; plain = e })
    ∙ ap (λ f. after f j (λ r'. consume_loop r' j rest))
        (accept-Quiet (wired r (escape_byte b)) j b h q)

-- Inside the header, or between the header and the last byte, the receiver only stores.
pub consume_loop-escape :
    (bs : List ℕ) (r : ReceiveFrame) (i : ℕ) (rest : List ℕ)
    → 2 ≤ length r.buffer
    → r.escaping ≡ false
    → Quiet r (length r.buffer + length bs)
    → consume_loop r i (escape bs ++ rest)
      ≡ consume_loop (stored r bs) (i + length (escape bs)) rest
consume_loop-escape [] r i rest h e q = unfold escape in rw (stored-nil r e, add-zero i)
consume_loop-escape (b ∷ bs) r i rest h e q =
    ap (λ w. consume_loop r i w) (escape-cons b bs rest)
    ∙ store_one r i b (escape bs ++ rest) h e (omega arith)
    ∙ consume_loop-escape bs (stored_byte r b) (i + length (escape_byte b)) rest
        (omega (arith, length-snoc r.buffer b)) refl (omega (arith, length-snoc r.buffer b))
    ∙ ap₂ (λ r' j. consume_loop r' j rest) (stored-cons r b bs)
        (omega (arith, length-escape-cons b bs))

-- The parser with one more byte stored behind `bs`.
abbrev pub stored_behind : ReceiveFrame → List ℕ → ℕ → ReceiveFrame
stored_behind r bs b =
    let r' = wired (stored r bs) (escape_byte b) in
    record r' { buffer = (r.buffer ++ bs) ++ (b ∷ []) }

escape-snoc : (bs : List ℕ) (b : ℕ) → escape (bs ++ (b ∷ [])) ≡ escape bs ++ escape_byte b
escape-snoc bs b = escape-append bs (b ∷ []) ∙ ap (λ w. escape bs ++ w) one
  where
    one : escape (b ∷ []) ≡ escape_byte b
    one = unfold escape in append-nil (escape_byte b)

length-escape-snoc :
    (bs : List ℕ) (b : ℕ)
    → length (escape (bs ++ (b ∷ []))) ≡ length (escape bs) + length (escape_byte b)
length-escape-snoc bs b = ap length (escape-snoc bs b) ∙ length-append (escape bs) (escape_byte b)

pub stored-snoc :
    (r : ReceiveFrame) (bs : List ℕ) (b : ℕ) → stored_behind r bs b ≡ stored r (bs ++ (b ∷ []))
stored-snoc r bs b =
    rw
      (
        escape-snoc bs b,
        append_assoc r.raw (escape bs) (escape_byte b),
        append_assoc r.buffer bs (b ∷ []),
        length-append (escape bs) (escape_byte b),
        add_assoc r.consumed_bytes (length (escape bs)) (length (escape_byte b)),
      )
      refl

-- After bytes that are only stored, the next one is handed to `accept`.
pub consume_loop-escape-snoc :
    (bs : List ℕ) (b : ℕ) (r : ReceiveFrame) (i : ℕ) (rest : List ℕ)
    → 2 ≤ length r.buffer
    → r.escaping ≡ false
    → Quiet r (length r.buffer + length bs)
    → let j = i + length (escape (bs ++ (b ∷ []))) in
      consume_loop r i (escape (bs ++ (b ∷ [])) ++ rest)
      ≡ after (accept (wired (stored r bs) (escape_byte b)) j b) j (λ r'. consume_loop r' j rest)
consume_loop-escape-snoc bs b r i rest h e q =
    ap (λ w. consume_loop r i w)
      (ap (λ w. w ++ rest) (escape-snoc bs b) ∙ append_assoc (escape bs) (escape_byte b) rest)
    ∙ consume_loop-escape bs r i (escape_byte b ++ rest) h e q
    ∙ consume_loop-escape_byte (stored r bs) (i + length (escape bs)) b rest
        (record { started = omega (arith, length-append r.buffer bs); plain = refl })
    ∙ ap
        (λ j.
          after (accept (wired (stored r bs) (escape_byte b)) j b) j (λ r'. consume_loop r' j rest))
        (omega (arith, length-escape-snoc bs b))
