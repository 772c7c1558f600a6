-- ===== src/Frame/Wire.antt =====
-- The two buffers of the parser of src/frame.rs: `raw` holds the bytes of a frame as they came in,
-- `buffer` without their escapes.
pub mod Count
pub mod Again
pub mod Standing
use rctpower_protocol.Frame.Escapes.{unescape, pending, begins, unescape-append, pending-append}
use rctpower_protocol.Frame.Escapes.{begins-append, raw-nil}
use rctpower_protocol.Base.{ℕ, ◌+◌, ◌≡◌, refl, sym, ap, ◌∙◌, arith, Bool, true, false, Option}
use rctpower_protocol.Base.{none, some, List, [], ◌∷◌, ◌++◌, append_assoc, append-nil, ◌==◌, inl}
use rctpower_protocol.Base.{inr}
use rctpower_protocol.Base.{if◌then◌else◌, is_empty, Bool-cases, ◌≢◌}
use rctpower_protocol.Base.{subst}
use mathlib.Core.Path.{ap₂}
use rctpower_protocol.Error.{Result, ok, Result-cases}
use rctpower_protocol.Types.Command.{Command}
use rctpower_protocol.Frame.Send.{start_token, escape_token}
use rctpower_protocol.Frame.Receive.{ReceiveFrame, Flow, new, consume, consume_loop, step}
use rctpower_protocol.Frame.Receive.{step_inside, accept, command_byte, check_header}
use rctpower_protocol.Frame.Receive.{parse_header}
use rctpower_protocol.Frame.Receive.{check_end, finish, finish_crc, finish_payload}
use rctpower_protocol.Frame.Chunks.Index.{view, goes_on, ends, fails, panics}
use rctpower_protocol.Frame.Chunks.{consume_loop-next, consume_loop-returned, consume_loop-failed}
use rctpower_protocol.Frame.Chunks.{consume_loop-panicked}

-- `buffer` is `raw` without its escapes, `escaping` says that the last one still waits for its
-- byte, and `raw` begins with a start token.
pub record IsUnescaped (r : ReceiveFrame) : Type 0 where
  pub text : unescape false r.raw ≡ r.buffer
  pub flag : pending false r.raw ≡ r.escaping
  pub token : begins r.raw ≡ true

pub new-IsUnescaped : (ignore : Bool) → IsUnescaped (new ignore)
unfolding unescape pending
new-IsUnescaped ignore = record { text = refl; flag = refl; token = refl }

-- What the two buffers are about.
abbrev pub wire : ReceiveFrame → List ℕ × List ℕ × Bool
wire r = (r.raw, r.buffer, r.escaping)

finish-wire : (r : ReceiveFrame) (i : ℕ) → wire (finish r i).0 ≡ wire r
unfolding finish finish_crc finish_payload
finish-wire r i = ground arith

check_end-wire : (r : ReceiveFrame) (i : ℕ) → wire (check_end r i).0 ≡ wire r
unfolding check_end
check_end-wire r i = ground (arith, finish-wire r i)

parse_header-wire :
    (r r' : ReceiveFrame) (c : Command) → parse_header r c ≡ ok r' → wire r' ≡ wire r
unfolding parse_header
parse_header-wire r r' c h = ground arith

check_header-wire :
    (r : ReceiveFrame) (i : ℕ) (c : Option Command) → wire (check_header r i c).0 ≡ wire r
unfolding check_header
check_header-wire r i none = check_end-wire r i
check_header-wire r i (some c) = elim (Result-cases (parse_header r c)) [
  | inl (r', e) ↦ ground (arith, parse_header-wire r r' c e, check_end-wire r i)
  | inr (inl (x, e)) ↦ ground (arith, check_end-wire r i)
  | inr (inr e) ↦ ground (arith, check_end-wire r i)
]

command_byte-wire : (r : ReceiveFrame) (i : ℕ) → wire (command_byte r i).0 ≡ wire r
unfolding command_byte
command_byte-wire r i = ground arith

accept-wire :
    (r : ReceiveFrame) (i c : ℕ) → wire (accept r i c).0 ≡ (r.raw, r.buffer ++ (c ∷ []), r.escaping)
unfolding accept
accept-wire r i c =
    let r' = record r { buffer = r.buffer ++ (c ∷ []) } in
    ground (arith, command_byte-wire r' i, check_header-wire r' i r'.command)

pub step_inside-wire :
    (r : ReceiveFrame) (i c : ℕ)
    → wire (step_inside r i c).0
      ≡ (r.raw ++ (c ∷ []), r.buffer ++ unescape r.escaping (c ∷ []), pending r.escaping (c ∷ []))
unfolding step_inside unescape pending
step_inside-wire r i c =
    let r' = record r { raw = r.raw ++ (c ∷ []) } in
    elim (Bool-cases r.escaping) [
      | inl e ↦ rw (e, step_inside) (accept-wire (record r' { escaping = false }) i c)
      | inr e ↦ elim (Bool-cases (c == escape_token)) [
        | inl t ↦ rw (e, step_inside, t, append-nil r.buffer) refl
        | inr t ↦ rw (e, step_inside, t) (accept-wire (record r' { escaping = false }) i c)
      ]
    ]

-- A byte behind the start token.
IsUnescaped-behind :
    (r s : ReceiveFrame) (c : ℕ)
    → IsUnescaped r
    → r.buffer ≢ []
    → wire s
      ≡ (r.raw ++ (c ∷ []), r.buffer ++ unescape r.escaping (c ∷ []), pending r.escaping (c ∷ []))
    → IsUnescaped s
unfolding unescape pending
IsUnescaped-behind r s c u some_byte e =
    let raw : s.raw ≡ r.raw ++ (c ∷ []) = ap (λ w. w.0) e in
    record {
      text =
          ap (unescape false) raw
          ∙ unescape-append false r.raw (c ∷ [])
          ∙ ap₂ (λ xs p. xs ++ unescape p (c ∷ [])) u.text u.flag
          ∙ sym (ap (λ w. w.1) e);
      flag =
          ap (pending false) raw
          ∙ pending-append false r.raw (c ∷ [])
          ∙ ap (λ p. pending p (c ∷ [])) u.flag
          ∙ sym (ap (λ w. w.2) e);
      token =
          ap begins raw
          ∙ begins-append r.raw (c ∷ [])
              (λ none_yet. some_byte (sym u.text ∙ ap (unescape false) none_yet)) u.token;
    }

pub is_empty-nil : (xs : List ℕ) → is_empty xs ≡ true → xs ≡ []
is_empty-nil [] h = refl
is_empty-nil (x ∷ xs) h = absurd (cc h)

-- A parser that has stored nothing waits for no escaped byte.
quiet : (r : ReceiveFrame) → IsUnescaped r → is_empty r.buffer ≡ true → r.escaping ≡ false
unfolding pending
quiet r u e =
    let nothing : r.raw ≡ [] = raw-nil r.raw (u.text ∙ is_empty-nil r.buffer e) u.token in
    sym u.flag ∙ ap (pending false) nothing

pub step-IsUnescaped : (r : ReceiveFrame) (i c : ℕ) → IsUnescaped r → IsUnescaped (step r i c).0
unfolding step unescape pending
step-IsUnescaped r i c u =
    let r' = record r { consumed_bytes = r.consumed_bytes + 1 } in
    elim (Bool-cases (is_empty r.buffer)) [
      | inl e ↦ elim (Bool-cases (c == start_token)) [
        | inl t ↦
            rw (e, step, t)
              (record { text = ground arith; flag = ground (arith, quiet r u e); token = t })
        | inr t ↦ rw (e, step, t) (record { text = u.text; flag = u.flag; token = u.token })
      ]
      | inr e ↦
          rw (e, step)
            (IsUnescaped-behind r' _ c (record { text = u.text; flag = u.flag; token = u.token })
              (λ none_yet. cc (sym e ∙ ap is_empty none_yet)) (step_inside-wire r' i c))
    ]

consume_loop-IsUnescaped :
    (bytes : List ℕ) (r : ReceiveFrame) (i : ℕ)
    → IsUnescaped r
    → IsUnescaped (consume_loop r i bytes).0
unfolding consume_loop
consume_loop-IsUnescaped [] r i u = u
consume_loop-IsUnescaped (c ∷ cs) r i u = elim (view (step r (i + 1) c)) [
  | goes_on r1 e ↦
      rw (consume_loop-next r r1 i c cs e) (consume_loop-IsUnescaped cs r1 (i + 1) (kept r1 e))
  | ends r1 e ↦ rw (consume_loop-returned r r1 i c cs e) (kept r1 e)
  | fails r1 x e ↦ rw (consume_loop-failed r r1 i c cs x e) (kept r1 e)
  | panics r1 e ↦ rw (consume_loop-panicked r r1 i c cs e) (kept r1 e)
]
  where
    kept : {f : Flow} (r1 : ReceiveFrame) → step r (i + 1) c ≡ (r1, f) → IsUnescaped r1
    kept r1 e = subst IsUnescaped (ap (λ p. p.0) e) (step-IsUnescaped r (i + 1) c u)

-- Whatever `consume` is given and however it ends, it keeps the two buffers of a parser in step:
-- `buffer` is `raw` without its escapes, the flag says that the last escape still waits for its
-- byte, and `raw` is empty or begins with a start token.
pub consume-IsUnescaped :
    (r : ReceiveFrame) (bytes : List ℕ) → IsUnescaped r → IsUnescaped (consume r bytes).0
unfolding consume
consume-IsUnescaped r bytes u = consume_loop-IsUnescaped bytes r 0 u
