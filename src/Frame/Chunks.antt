-- ===== src/Frame/Chunks.antt =====
-- `consume` of src/frame.rs on bytes that come in several calls.
pub mod Index
use rctpower_protocol.Base.{ℕ, suc, ◌+◌, ◌≡◌, refl, sym, ap, ◌∙◌, arith, true, false, ◌⊎◌, inl}
use rctpower_protocol.Base.{inr}
use rctpower_protocol.Base.{List, [], ◌∷◌, ◌++◌, length, Bool-cases}
use native.Mathlib.Nat.{add-zero}
use rctpower_protocol.Error.{RctError, Result, ok, err, panic}
use rctpower_protocol.Frame.Receive.{ReceiveFrame, Flow, next, returned, failed, panicked, step}
use rctpower_protocol.Frame.Receive.{after}
use rctpower_protocol.Frame.Receive.{consume_loop, consume}
use rctpower_protocol.Frame.Checked.{waits, checked, step-checked}
use rctpower_protocol.Frame.Chunks.Index.{step-next, step-returned, View, view, goes_on, ends}
use rctpower_protocol.Frame.Chunks.Index.{fails, panics}

module _ (r r1 : ReceiveFrame) (i c : ℕ) (cs : List ℕ) where
  pub consume_loop-next :
      step r (i + 1) c ≡ (r1, next) → consume_loop r i (c ∷ cs) ≡ consume_loop r1 (i + 1) cs
  unfolding consume_loop
  consume_loop-next e = ap (λ s. after s (i + 1) (λ r'. consume_loop r' (i + 1) cs)) e

  pub consume_loop-returned :
      step r (i + 1) c ≡ (r1, returned) → consume_loop r i (c ∷ cs) ≡ (r1, ok (i + 1))
  unfolding consume_loop
  consume_loop-returned e = ap (λ s. after s (i + 1) (λ r'. consume_loop r' (i + 1) cs)) e

  pub consume_loop-failed :
      (x : RctError) → step r (i + 1) c ≡ (r1, failed x) → consume_loop r i (c ∷ cs) ≡ (r1, err x)
  unfolding consume_loop
  consume_loop-failed x e = ap (λ s. after s (i + 1) (λ r'. consume_loop r' (i + 1) cs)) e

  pub consume_loop-panicked :
      step r (i + 1) c ≡ (r1, panicked) → consume_loop r i (c ∷ cs) ≡ (r1, panic)
  unfolding consume_loop
  consume_loop-panicked e = ap (λ s. after s (i + 1) (λ r'. consume_loop r' (i + 1) cs)) e

-- A strict parser that goes on has no frame yet, and one that ends has one.
pub step-waits :
    (r r1 : ReceiveFrame) (i c : ℕ) → waits r ≡ true → step r i c ≡ (r1, next) → waits r1 ≡ true
step-waits r r1 i c h e = sym (ap checked e) ∙ step-checked r i c h

pub step-complete :
    (r r1 : ReceiveFrame) (i c : ℕ)
    → waits r ≡ true
    → step r i c ≡ (r1, returned)
    → r1.complete ≡ true
step-complete r r1 i c h e =
    let right : checked (r1, returned) ≡ true = sym (ap checked e) ∙ step-checked r i c h in
    ground arith

-- The parser that a call leaves does not depend on the count that it starts with.
pub consume_loop-reindex :
    (xs : List ℕ) (r r' : ReceiveFrame) (i j m : ℕ)
    → consume_loop r i xs ≡ (r', ok m)
    → (n : ℕ) × (consume_loop r j xs ≡ (r', ok n)) × (n + i ≡ m + j)
unfolding consume_loop
consume_loop-reindex [] r r' i j m e =
    let counted : i ≡ m = cc (ap (λ p. p.1) e) in
    (j, ap (λ p. (p.0, ok j)) e, omega (arith, counted))
consume_loop-reindex (c ∷ cs) r r' i j m e = elim (view (step r (i + 1) c)) [
  | goes_on r1 h ↦
      let (n, same, counted) =
        consume_loop-reindex cs r1 r' (i + 1) (j + 1) m
          (sym (consume_loop-next r r1 i c cs h) ∙ e) in
      (
        n,
        consume_loop-next r r1 j c cs (step-next r r1 (i + 1) (j + 1) c h) ∙ same,
        omega (arith, counted),
      )
  | ends r1 h ↦
      let left : ◌≡◌ {A = ReceiveFrame × Result ℕ} (r1, ok (i + 1)) (r', ok m) =
        sym (consume_loop-returned r r1 i c cs h) ∙ e in
      let counted : i + 1 ≡ m = cc (ap (λ p. p.1) left) in
      (
        j + 1,
        consume_loop-returned r r1 j c cs (step-returned r r1 (i + 1) (j + 1) c h)
            ∙ ap (λ p. (p.0, ok (j + 1))) left,
        omega (arith, counted),
      )
  | fails r1 x h ↦ absurd (cc (ap (λ p. p.1) (sym (consume_loop-failed r r1 i c cs x h) ∙ e)))
  | panics r1 h ↦ absurd (cc (ap (λ p. p.1) (sym (consume_loop-panicked r r1 i c cs h) ∙ e)))
]

-- The bytes `xs` complete the frame by themselves, or are stored and `ys` completes it.
pub data Split (r r'' : ReceiveFrame) (i m : ℕ) (xs ys : List ℕ) : Type 0 where
  early : consume_loop r i xs ≡ (r'', ok m) → Split r r'' i m xs ys
  late :
      (r' : ReceiveFrame)
      → consume_loop r i xs ≡ (r', ok (i + length xs))
      → waits r' ≡ true
      → consume_loop r' (i + length xs) ys ≡ (r'', ok m)
      → Split r r'' i m xs ys

pub consume_loop-Split :
    (xs ys : List ℕ) (r r'' : ReceiveFrame) (i m : ℕ)
    → waits r ≡ true
    → consume_loop r i (xs ++ ys) ≡ (r'', ok m)
    → Split r r'' i m xs ys
unfolding consume_loop
consume_loop-Split [] ys r r'' i m h e =
    late r (ap (λ n. (r, ok n)) (sym (add-zero i))) h
      (ap (λ n. consume_loop r n ys) (add-zero i) ∙ e)
consume_loop-Split (c ∷ xs) ys r r'' i m h e = elim (view (step r (i + 1) c)) [
  | goes_on r1 s ↦
      let e1 = sym (consume_loop-next r r1 i c (xs ++ ys) s) ∙ e in
      let longer : i + 1 + length xs ≡ i + suc (length xs) = omega arith in
      elim (consume_loop-Split xs ys r1 r'' (i + 1) m (step-waits r r1 (i + 1) c h s) e1) [
        | early f ↦ early (consume_loop-next r r1 i c xs s ∙ f)
        | late r' f w g ↦
            late r' (consume_loop-next r r1 i c xs s ∙ f ∙ ap (λ n. (r', ok n)) longer) w
              (ap (λ n. consume_loop r' n ys) (sym longer) ∙ g)
      ]
  | ends r1 s ↦
      early (
        consume_loop-returned r r1 i c xs s ∙ sym (consume_loop-returned r r1 i c (xs ++ ys) s) ∙ e)
  | fails r1 x s ↦
      absurd (cc (ap (λ p. p.1) (sym (consume_loop-failed r r1 i c (xs ++ ys) x s) ∙ e)))
  | panics r1 s ↦
      absurd (cc (ap (λ p. p.1) (sym (consume_loop-panicked r r1 i c (xs ++ ys) s) ∙ e)))
]
