-- ===== src/Frame/Receive/Header.antt =====
-- The receiver on the start token, the command byte and the header of a standard frame.
use rctpower_protocol.Base.{ℕ, ◌+◌, ◌-◌, ◌%◌, ◌^◌, ◌<◌, ◌≤◌, ◌≡◌, ◌≢◌, refl, ap, ◌∙◌}
use rctpower_protocol.Base.{arith, Bool, true, false, inl, inr, some, Bool-cases}
use rctpower_protocol.Base.{List, [], ◌∷◌, ◌++◌, length, All, ◌==◌, if◌then◌else◌}
use native.Mathlib.Nat.{add_assoc, add-zero}
use mathlib.Core.Path.{ap₂}
use rctpower_protocol.Base.Bytes.{u16_to_be, u32_to_be, u16_from_be, u32_from_be}
use rctpower_protocol.Base.Bytes.{u16_from_be-u16_to_be, u32_from_be-u32_to_be}
use rctpower_protocol.Types.Command.{Command, byte, from_byte, is_plant_byte, is_long, standard}
use rctpower_protocol.Types.Command.{frame_type_number}
use rctpower_protocol.Types.Command.Laws.{is_plant_byte-byte}
use rctpower_protocol.Frame.Send.{start_token, escape, escape_byte, length_field}
use rctpower_protocol.Frame.Receive.{ReceiveFrame, new, next, step, step_inside, accept}
use rctpower_protocol.Frame.Receive.{command_byte, check_header, parse_header, consume_loop}
use rctpower_protocol.Frame.Receive.{after}
use rctpower_protocol.Frame.Receive.Quiet.{wired, stored, stored_behind, stored-snoc}
use rctpower_protocol.Frame.Receive.Quiet.{consume_loop-escape-snoc}

-- A parser that has dropped `k` bytes and still waits for a start token.
abbrev pub waiting : Bool → ℕ → ReceiveFrame
waiting ignore k = record (new ignore) { consumed_bytes = k }

-- Bytes other than the start token are dropped.
pub consume_loop_junk :
    (junk : List ℕ) (ignore : Bool) (k i : ℕ) (rest : List ℕ)
    → All (λ b. b ≢ start_token) junk
    → consume_loop (waiting ignore k) i (junk ++ rest)
      ≡ consume_loop (waiting ignore (k + length junk)) (i + length junk) rest
unfolding consume_loop step
consume_loop_junk [] ignore k i rest h = rw (add-zero k, add-zero i)
consume_loop_junk (b ∷ junk) ignore k i rest (hb, h) =
    let other : (b == start_token) ≡ false = ground arith in
    rw other (
      consume_loop_junk junk ignore (k + 1) (i + 1) rest h
      ∙ ap₂ (λ m j. consume_loop (waiting ignore m) j rest) (omega arith) (omega arith))

-- The parser behind the command byte of a standard frame, with a header of `n` bytes.
abbrev pub commanded : Bool → ℕ → Command → ℕ → ReceiveFrame
commanded ignore k c n = record (new ignore) {
  command = some c;
  buffer = start_token ∷ byte c ∷ [];
  raw = start_token ∷ byte c ∷ [];
  consumed_bytes = k + 2;
  frame_header_length = n;
}

-- Start token, command, one or two bytes of length, object id.
abbrev pub header_length : Command → ℕ
header_length c = 7 + (if is_long c then 1 else 0)

-- The start token and the byte of any command but the extension.
pub consume_loop_command :
    (c : Command) (ignore : Bool) (k i : ℕ) (rest : List ℕ)
    → c ≢ Command.extension
    → consume_loop (waiting ignore k) i (start_token ∷ escape_byte (byte c) ++ rest)
      ≡ consume_loop (commanded ignore k c (header_length c)) (i + 2) rest
unfolding consume_loop step step_inside accept command_byte from_byte is_plant_byte byte escape_byte
consume_loop_command Command.extension ignore k i rest h = absurd (h refl)
consume_loop_command Command.read ignore k i rest h = rw (add_assoc i 1 1, add_assoc k 1 1) refl
consume_loop_command _ ignore k i rest h = rw (add_assoc i 1 1, add_assoc k 1 1) refl

-- The parser behind a header whose length field is `n`.
abbrev pub headed : ReceiveFrame → List ℕ → ℕ → ℕ → ReceiveFrame
headed r field n id =
    let r' = stored r field in
    record r' { frame_length = r.frame_header_length - 4 + n + 2; id = id }

module _ (r : ReceiveFrame) (bs : List ℕ) (b n id : ℕ) (h : 2 ≤ length r.buffer)
    (e : r.escaping ≡ false) (z : r.frame_length ≡ 0)
    (short : length r.buffer + length bs < r.frame_header_length) where
  -- The last byte of a header ends in `parse_header`.
  header_end :
      (i : ℕ) (rest : List ℕ)
      → ((j : ℕ)
          → accept (wired (stored r bs) (escape_byte b)) j b ≡ (
            record (stored_behind r bs b) {
              frame_length = r.frame_header_length - 4 + n + 2;
              id = id;
            },
            next,
          ))
      → consume_loop r i (escape (bs ++ b ∷ []) ++ rest)
        ≡ consume_loop (headed r (bs ++ b ∷ []) n id) (i + length (escape (bs ++ b ∷ []))) rest
  header_end i rest parsed =
      let j = i + length (escape (bs ++ b ∷ [])) in
      consume_loop-escape-snoc bs b r i rest h e (inl (z, short))
      ∙ ap (λ f. after f j (λ r'. consume_loop r' j rest)) (parsed j)
      ∙ ap
          (λ (s : ReceiveFrame).
            consume_loop (record s { frame_length = r.frame_header_length - 4 + n + 2; id = id }) j
              rest)
          (stored-snoc r bs b)

header_short :
    (ignore : Bool) (k i : ℕ) (c : Command) (n a0 a1 a2 a3 : ℕ) (rest : List ℕ)
    → is_long c ≡ false
    → let field = n ∷ a0 ∷ a1 ∷ a2 ∷ a3 ∷ [] in
      let r = commanded ignore k c 7 in
      consume_loop r i (escape field ++ rest)
      ≡ consume_loop (headed r field n (u32_from_be a0 a1 a2 a3)) (i + length (escape field)) rest
unfolding accept check_header parse_header
header_short ignore k i c n a0 a1 a2 a3 rest e =
    header_end (commanded ignore k c 7) (n ∷ a0 ∷ a1 ∷ a2 ∷ []) a3 n (u32_from_be a0 a1 a2 a3)
      (omega arith) refl refl (omega arith) i rest (λ j. rw (e, is_plant_byte-byte c) refl)

header_long :
    (ignore : Bool) (k i : ℕ) (c : Command) (hi lo a0 a1 a2 a3 : ℕ) (rest : List ℕ)
    → is_long c ≡ true
    → let field = hi ∷ lo ∷ a0 ∷ a1 ∷ a2 ∷ a3 ∷ [] in
      let r = commanded ignore k c 8 in
      consume_loop r i (escape field ++ rest)
      ≡ consume_loop
          (headed r field (u16_from_be hi lo) (u32_from_be a0 a1 a2 a3))
          (i + length (escape field))
          rest
unfolding accept check_header parse_header
header_long ignore k i c hi lo a0 a1 a2 a3 rest e =
    header_end (commanded ignore k c 8) (hi ∷ lo ∷ a0 ∷ a1 ∷ a2 ∷ []) a3 (u16_from_be hi lo)
      (u32_from_be a0 a1 a2 a3) (omega arith) refl refl (omega arith) i rest
      (λ j. rw (e, is_plant_byte-byte c) refl)

-- Reading the header of a frame that `make_frame` builds for `payload`: a length field of
-- `4 + length payload`, where that fits, and the object id.
abbrev pub Fits : Command → ℕ → Type 0
Fits c n = if is_long c then 4 + n < 2 ^ 16 else 4 + n < 2 ^ 8

pub consume_loop_header :
    (ignore : Bool) (k i : ℕ) (c : Command) (payload : List ℕ) (id : ℕ) (rest : List ℕ)
    → Fits c (length payload)
    → id < 2 ^ 32
    → let field = length_field c standard payload ++ u32_to_be id in
      let r = commanded ignore k c (header_length c) in
      consume_loop r i (escape field ++ rest)
      ≡ consume_loop (headed r field (4 + length payload) id) (i + length (escape field)) rest
unfolding length_field frame_type_number
consume_loop_header ignore k i c payload id rest fits small = elim (Bool-cases (is_long c)) [
  | inl long ↦
      let n : ℕ = 4 + length payload in
      let field : List ℕ = u16_to_be n ++ u32_to_be id in
      let fits' : n < 2 ^ 16 = rw long at fits in
      let same : (4 + length payload % 2 ^ 16) % 2 ^ 16 ≡ n = omega arith in
      rw (long, same)
        (header_long ignore k i c _ _ _ _ _ _ rest long
          ∙ ap₂
              (λ (m v : ℕ).
                consume_loop (headed (commanded ignore k c 8) field m v) (i + length (escape field))
                  rest)
              (u16_from_be-u16_to_be n fits') (u32_from_be-u32_to_be id small))
  | inr short ↦
      let n : ℕ = 4 + length payload in
      let field : List ℕ = n ∷ u32_to_be id in
      let fits' : n < 2 ^ 8 = rw short at fits in
      let same : (4 + length payload % 2 ^ 8) % 2 ^ 8 ≡ n = omega arith in
      rw (short, same)
        (header_short ignore k i c n _ _ _ _ rest short
          ∙ ap
              (λ (v : ℕ).
                consume_loop (headed (commanded ignore k c 7) field n v) (i + length (escape field))
                  rest)
              (u32_from_be-u32_to_be id small))
]
