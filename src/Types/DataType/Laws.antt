-- ===== src/Types/DataType/Laws.antt =====
-- From the names of data types of src/types.rs back to the type.
use rctpower_protocol.Base.{◌≡◌, refl, ◌↔◌, ap, sym, ◌∙◌, arith, some, Bool-cases, inl, inr}
use rctpower_protocol.Base.{List, [], ◌∷◌, All}
use rctpower_protocol.Base.Text.{Text, text_eq, text_eq-eq}
use rctpower_protocol.Types.DataType.{DataType, arms, match_arms, name, from_str_name}

from_str_name-name : (t : DataType) → from_str_name (name t) ≡ some t
unfolding from_str_name name
from_str_name-name DataType.unknown = refl
from_str_name-name _ = refl

IsNamed : Text × DataType → Type 0
IsNamed (text, t) = name t ≡ text

name-match_arms :
    (s : Text) (as' : List (Text × DataType)) (t : DataType)
    → All IsNamed as'
    → match_arms s as' ≡ some t
    → name t ≡ s
unfolding match_arms IsNamed
name-match_arms s [] t h e = cc
name-match_arms s ((text, u) ∷ rest) t (h, hs) e = elim (Bool-cases (text_eq s text)) [
  | inl hit ↦ ground (arith, text_eq-eq s text hit)
  | inr miss ↦ name-match_arms s rest t hs (rw miss at e)
]

arms-IsNamed : All IsNamed arms
unfolding IsNamed name
arms-IsNamed = assumption refl

name-from_str_name : (s : Text) (t : DataType) → from_str_name s ≡ some t → name t ≡ s
unfolding from_str_name
name-from_str_name s t = name-match_arms s arms t arms-IsNamed

-- A text is read by `from_str_name` as the type `t` exactly when it is the name of `t`.
pub from_str_name-name_iff : (s : Text) (t : DataType) → (from_str_name s ≡ some t) ↔ (name t ≡ s)
from_str_name-name_iff s t =
    (name-from_str_name s t, λ e. ap from_str_name (sym e) ∙ from_str_name-name t)
