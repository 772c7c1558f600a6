-- ===== src/Base/Lists.antt =====
-- Lists measured, indexed and cut by native numbers, under the library's names.
use Prim.Native.Nat.{ℕ, zero, suc, ◌+◌, ◌<◌}
use mathlib.Core.Logic.{◌≢◌}
use mathlib.Core.Path.{◌≡◌, refl, ap, sym, ◌∙◌}
use mathlib.Core.List.{List, [], ◌∷◌, ◌++◌, append_assoc}
use mathlib.Core.Bool.{Bool, true, false}
use mathlib.Core.Option.{Option, none, some}
use native.Mathlib.Omega.{arith}
use rctpower_protocol.Base.Tests.{leb, if◌then◌else◌}

module _ {ℓ} {A : Type ℓ} where
  abbrev pub length : List A → ℕ
  length [] = 0
  length (x ∷ xs) = suc (length xs)

  abbrev pub get_elem? : List A → ℕ → Option A
  get_elem? [] i = none
  get_elem? (x ∷ xs) zero = some x
  get_elem? (x ∷ xs) (suc i) = get_elem? xs i

  abbrev pub take : ℕ → List A → List A
  take zero xs = []
  take (suc n) [] = []
  take (suc n) (x ∷ xs) = x ∷ take n xs

  abbrev pub drop : ℕ → List A → List A
  drop zero xs = xs
  drop (suc n) [] = []
  drop (suc n) (x ∷ xs) = drop n xs

  abbrev pub is_empty : List A → Bool
  is_empty [] = true
  is_empty (x ∷ xs) = false

  -- `&v[from..to]`: `none` is the panic on a range that is reversed or out of bounds.
  abbrev pub slice : List A → ℕ → ℕ → Option (List A)
  slice xs from to =
      if leb from to
      then (if leb to (length xs) then some (drop from (take to xs)) else none)
      else none

  abbrev pub All {κ} : (A → Type κ) → List A → Type κ
  All P [] = Unit {κ}
  All P (x ∷ xs) = P x × All P xs

  pub length-append : (xs ys : List A) → length (xs ++ ys) ≡ length xs + length ys
  length-append [] ys = omega arith
  length-append (x ∷ xs) ys = omega (arith, length-append xs ys)

  pub take-append : (xs ys : List A) (n : ℕ) → n ≡ length xs → take n (xs ++ ys) ≡ xs
  take-append [] ys zero e = refl
  take-append [] ys (suc n) e = absurd (omega arith)
  take-append (x ∷ xs) ys zero e = absurd (omega arith)
  take-append (x ∷ xs) ys (suc n) e = ap (λ t. x ∷ t) (take-append xs ys n (omega arith))

  pub drop-append : (xs ys : List A) (n : ℕ) → n ≡ length xs → drop n (xs ++ ys) ≡ ys
  drop-append [] ys zero e = refl
  drop-append [] ys (suc n) e = absurd (omega arith)
  drop-append (x ∷ xs) ys zero e = absurd (omega arith)
  drop-append (x ∷ xs) ys (suc n) e = drop-append xs ys n (omega arith)

pub All-append {ℓ κ} :
    {A : Type ℓ} (P : A → Type κ) (xs ys : List A) → All P xs → All P ys → All P (xs ++ ys)
All-append P [] ys hx hy = hy
All-append P (x ∷ xs) ys (h, hx) hy = (h, All-append P xs ys hx hy)

pub get_elem?-ne-none {ℓ} :
    {A : Type ℓ} (xs : List A) (i : ℕ) → i < length xs → get_elem? xs i ≢ none
get_elem?-ne-none [] i h e = absurd (omega arith)
get_elem?-ne-none (x ∷ xs) zero h e = cc
get_elem?-ne-none (x ∷ xs) (suc i) h e = get_elem?-ne-none xs i (omega arith) e

module _ {ℓ} {A : Type ℓ} where
  take-of : (l xs ys : List A) (n : ℕ) → l ≡ xs ++ ys → n ≡ length xs → take n l ≡ xs
  take-of l xs ys n e en = ap (take n) e ∙ take-append xs ys n en

  -- The part of a list that lies between two others.
  pub slice_middle :
      (l xs ys zs : List A) (m n : ℕ)
      → l ≡ xs ++ (ys ++ zs)
      → m ≡ length xs
      → n ≡ length xs + length ys
      → slice l m n ≡ some ys
  slice_middle l xs ys zs m n e em en =
      rw (in_order, in_bounds, kept) (ap some (drop-append xs ys m em))
    where
      in_order : leb m n ≡ true
      in_order = ground arith

      in_bounds : leb n (length l) ≡ true
      in_bounds = ground (arith, ap length e, length-append xs (ys ++ zs), length-append ys zs)

      kept : take n l ≡ xs ++ ys
      kept =
          take-of l (xs ++ ys) zs n (e ∙ sym (append_assoc xs ys zs))
            (en ∙ sym (length-append xs ys))

  get_elem?-append :
      (xs : List A) (y : A) (zs : List A) (n : ℕ)
      → n ≡ length xs
      → get_elem? (xs ++ (y ∷ zs)) n ≡ some y
  get_elem?-append [] y zs zero e = refl
  get_elem?-append [] y zs (suc n) e = absurd (omega arith)
  get_elem?-append (x ∷ xs) y zs zero e = absurd (omega arith)
  get_elem?-append (x ∷ xs) y zs (suc n) e = get_elem?-append xs y zs n (omega arith)

  -- The element of a list that lies behind `xs`.
  pub get_elem?_behind :
      (l xs : List A) (y : A) (zs : List A) (n : ℕ)
      → l ≡ xs ++ (y ∷ zs)
      → n ≡ length xs
      → get_elem? l n ≡ some y
  get_elem?_behind l xs y zs n e en = ap (λ k. get_elem? k n) e ∙ get_elem?-append xs y zs n en
