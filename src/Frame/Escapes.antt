-- ===== src/Frame/Escapes.antt =====
-- The escapes of src/frame.rs, taken out of bytes, apart from its parser.
use rctpower_protocol.Base.{ℕ, ◌≡◌, refl, ap, arith, Bool, true, false}
use rctpower_protocol.Base.{List, [], ◌∷◌, ◌++◌, ◌==◌, inl}
use rctpower_protocol.Base.{inr}
use rctpower_protocol.Base.{if◌then◌else◌, Bool-cases, ◌≢◌}
use rctpower_protocol.Frame.Send.{start_token, escape_token}

-- Bytes without their escapes; the flag says that an escape token stands before them.
unfoldable pub unescape : Bool → List ℕ → List ℕ
unescape escaped [] = []
unescape true (c ∷ cs) = c ∷ unescape false cs
unescape false (c ∷ cs) = if c == escape_token then unescape true cs else c ∷ unescape false cs

-- Whether an escape token stands at the end that nothing follows yet.
unfoldable pub pending : Bool → List ℕ → Bool
pending escaped [] = escaped
pending true (c ∷ cs) = pending false cs
pending false (c ∷ cs) = if c == escape_token then pending true cs else pending false cs

abbrev pub begins : List ℕ → Bool
begins [] = true
begins (b ∷ bs) = b == start_token

pub unescape-append :
    (escaped : Bool) (xs ys : List ℕ)
    → unescape escaped (xs ++ ys) ≡ unescape escaped xs ++ unescape (pending escaped xs) ys
unfolding unescape pending
unescape-append escaped [] ys = refl
unescape-append true (c ∷ cs) ys = ap (λ t. c ∷ t) (unescape-append false cs ys)
unescape-append false (c ∷ cs) ys = elim (Bool-cases (c == escape_token)) [
  | inl e ↦ rw e (unescape-append true cs ys)
  | inr e ↦ rw e (ap (λ t. c ∷ t) (unescape-append false cs ys))
]

pub pending-append :
    (escaped : Bool) (xs ys : List ℕ) → pending escaped (xs ++ ys) ≡ pending (pending escaped xs) ys
unfolding pending
pending-append escaped [] ys = refl
pending-append true (c ∷ cs) ys = pending-append false cs ys
pending-append false (c ∷ cs) ys = elim (Bool-cases (c == escape_token)) [
  | inl e ↦ rw e (pending-append true cs ys)
  | inr e ↦ rw e (pending-append false cs ys)
]

pub begins-append : (xs ys : List ℕ) → xs ≢ [] → begins xs ≡ true → begins (xs ++ ys) ≡ true
begins-append [] ys some_byte h = absurd (some_byte refl)
begins-append (x ∷ xs) ys some_byte h = h

-- Before its start token a parser that `IsUnescaped` has stored nothing.
pub raw-nil : (xs : List ℕ) → unescape false xs ≡ [] → begins xs ≡ true → xs ≡ []
unfolding unescape
raw-nil [] e h = refl
raw-nil (x ∷ xs) e h = ground arith
