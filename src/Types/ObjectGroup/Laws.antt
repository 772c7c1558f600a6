-- ===== src/Types/ObjectGroup/Laws.antt =====
-- From the numbers and the names of object groups of src/types.rs back to the group.
use rctpower_protocol.Base.{ℕ, ◌+◌, ◌≤◌, ◌≡◌, refl, ◌↔◌, ap, ◌∙◌, subst, arith}
use rctpower_protocol.Base.{Bool, true, false, ◌&&◌, Option, none, some, List, [], ◌∷◌}
use rctpower_protocol.Base.{and_true, Bool-cases, Option-cases, inl, inr}
use rctpower_protocol.Base.Text.{Text, text_eq, text_eq-eq}
use rctpower_protocol.Types.ObjectGroup.{ObjectGroup, number, names, from_u8, from_string_loop}
use rctpower_protocol.Types.ObjectGroup.{from_string, display}

-- Every group is found again from its number, which is at most 36.
pub from_u8-number : (g : ObjectGroup) → (from_u8 (number g) ≡ some g) × (number g ≤ 36)
unfolding from_u8 number
from_u8-number ObjectGroup.rb485 = (refl, omega arith)
from_u8-number _ = (refl, omega arith)

from_string-display-some :
    (g : ObjectGroup) → (s : Text) × (display g ≡ some s) × (from_string s ≡ some g)
unfolding display from_string from_u8
from_string-display-some ObjectGroup.rb485 = (_, refl, refl)
from_string-display-some _ = (_, refl, refl)

-- Whether the group with this number, if there is one, is shown as `item`.
shown_as : Option ObjectGroup → Text → Bool
shown_as none item = true
shown_as (some g) item = elim (display g) [ none ↦ false | some s ↦ text_eq s item ]

aligned : ℕ → List Text → Bool
aligned e [] = true
aligned e (item ∷ rest) = shown_as (from_u8 e) item && aligned (e + 1) rest

names-aligned : aligned 0 names ≡ true
unfolding aligned shown_as from_u8 display text_eq
names-aligned = refl

shown_as-eq :
    (g : ObjectGroup) (item : Text) → shown_as (some g) item ≡ true → display g ≡ some item
unfolding shown_as
shown_as-eq g item h = elim (Option-cases (display g)) [
  | inl e ↦ cc (rw (e, shown_as) at h)
  | inr (s, e) ↦ e ∙ ap some (text_eq-eq s item (rw (e, shown_as) at h))
]

from_string_loop-display :
    (s : Text) (e : ℕ) (ns : List Text) (g : ObjectGroup)
    → aligned e ns ≡ true
    → from_string_loop s e ns ≡ some g
    → display g ≡ some s
unfolding aligned from_string_loop
from_string_loop-display s e [] g h k = cc
from_string_loop-display s e (item ∷ rest) g h k =
    let (here, later) = and_true (shown_as (from_u8 e) item) (aligned (e + 1) rest) h in
    elim (Bool-cases (text_eq item s)) [
      | inl hit ↦ shown_as-eq g item (rw (rw hit at k) at here) ∙ ap some (text_eq-eq item s hit)
      | inr miss ↦ from_string_loop-display s (e + 1) rest g later (rw miss at k)
    ]

-- `from_string` reads a text as the group `g` exactly when `g` is displayed as that text.
from_string-display_iff :
    (s : Text) (g : ObjectGroup) → (from_string s ≡ some g) ↔ (display g ≡ some s)
unfolding from_string
from_string-display_iff s g = (from_string_loop-display s 0 names g names-aligned, back)
  where
    back : display g ≡ some s → from_string s ≡ some g
    back e =
        let (t, shown, found) = from_string-display-some g in
        let same : t ≡ s = cc in subst (λ u. from_string u ≡ some g) same found
