-- ===== src/Writable/Texts.antt =====
-- Integers as texts without a point.
use rctpower_protocol.Base.{ℕ, suc, ◌≡◌, refl, arith, false, none, []}
use rctpower_protocol.Base.{◌∷◌, All}
use rctpower_protocol.Base.Bytes.{codes}
use rctpower_protocol.Base.Int.{ℤ, pos, negsuc}
use rctpower_protocol.Base.Text.{Text, decimal, decimal_int}
use rctpower_protocol.Base.Strings.{contains, behind, starts_with}
use rctpower_protocol.Base.Strings.Split.{Without, differs}
use rctpower_protocol.Base.Strings.Digits.{IsFigure, decimal-IsFigure}

figures-Without_point : (s : Text) → All IsFigure s → Without b'.' s
figures-Without_point [] h = tt
figures-Without_point (c ∷ s) ((low, _, _, _, _), hs) = (ground arith, figures-Without_point s hs)

pub decimal-Without_point : (n : ℕ) → Without b'.' (decimal n)
decimal-Without_point n = figures-Without_point (decimal n) (decimal-IsFigure n)

pub decimal_int-Without_point : (z : ℤ) → Without b'.' (decimal_int z)
unfolding decimal_int
decimal_int-Without_point (pos n) = decimal-Without_point n
decimal_int-Without_point (negsuc n) = ((λ e. omega (arith, e)), decimal-Without_point (suc n))

pub behind-Without : (c : ℕ) (s : Text) → Without c s → behind c s ≡ none
unfolding behind
behind-Without c [] h = refl
behind-Without c (d ∷ s) (h, hs) = rw (differs c d h, behind) (behind-Without c s hs)

pub contains-Without_point : (s : Text) → Without b'.' s → contains (codes ".") s ≡ false
unfolding contains starts_with
contains-Without_point [] h = refl
contains-Without_point (d ∷ s) (h, hs) = ground (arith, contains-Without_point s hs)
