-- ===== src/Client/Retry/Turns.antt =====
-- How many exchanges the operations on top of `try_exchange` make, and what comes of them.
use rctpower_protocol.Base.{ℕ, zero, suc, ◌+◌, ◌≤◌, ◌<◌, ◌≡◌, refl, ap, arith, List, inl, inr}
use rctpower_protocol.Base.{subst}
use Prim.Native.Nat.{max}
use rctpower_protocol.Error.{RctError, Result, ok, err, panic, Result-cases}
use rctpower_protocol.Types.DataType.{DataType}
use rctpower_protocol.Types.DataValue.{DataValue}
use rctpower_protocol.Client.Retry.{Try, attempts, exchange_loop, exchange}

-- The law of a `try_exchange` that counts itself.
abbrev pub Counts : (S : Type 0) → Try S → (S → ℕ) → Type 0
Counts S try_exchange turn =
    (s : S) (frame : List ℕ) (t : DataType) → turn (try_exchange s frame t).0 ≡ turn s + 1

-- There is at least one attempt.
pub attempts-suc : (retries : ℕ) → (n : ℕ) × (attempts retries ≡ suc n)
attempts-suc zero = (0, refl)
attempts-suc (suc n) = (n, refl)

attempts-max : (retries : ℕ) → attempts retries ≡ max 1 retries
attempts-max zero = omega arith
attempts-max (suc n) = omega arith

-- What every `try_exchange` leaves behind, an exchange leaves behind: from `P` to `Q`, where an
-- error in `Q` leads back to `P`.
module _ {S : Type 0} (try_exchange : Try S) (retries : ℕ) (P : S → Type 0)
    (Q : S → Result DataValue → Type 0) (again : (s : S) (e : RctError) → Q s (err e) → P s)
    (frame : List ℕ) (t : DataType)
    (each : (s : S) → P s → let (s', answer) = try_exchange s frame t in Q s' answer) where
  exchange_loop-suc :
      (n : ℕ) (s : S) (last : RctError)
      → P s
      → ((s' : S) (x : RctError)
          → Q s' (err x)
          → let (s2, answer) = exchange_loop try_exchange retries n s' frame t x in Q s2 answer)
      → let (s2, answer) = exchange_loop try_exchange retries (suc n) s frame t last in Q s2 answer
  unfolding exchange_loop
  exchange_loop-suc n s last p later =
      let (s', answer) = try_exchange s frame t in
      let now : Q s' answer = each s p in
      elim (Result-cases answer) [
        | inl (v, e) ↦ rw (e, exchange_loop) (subst (Q s') e now)
        | inr (inl (x, e)) ↦ rw (e, exchange_loop) (later s' x (subst (Q s') e now))
        | inr (inr e) ↦ rw (e, exchange_loop) (subst (Q s') e now)
      ]

  exchange_loop-holds :
      (n : ℕ) (s : S) (last : RctError)
      → Q s (err last)
      → let (s', answer) = exchange_loop try_exchange retries n s frame t last in Q s' answer
  unfolding exchange_loop
  exchange_loop-holds zero s last h = h
  exchange_loop-holds (suc n) s last h =
      exchange_loop-suc n s last (again s last h) (λ s' x. exchange_loop-holds n s' x)

  pub exchange-holds :
      (s : S) → P s → let (s', answer) = exchange try_exchange retries s frame t in Q s' answer
  unfolding exchange
  exchange-holds s p =
      let (n, e) = attempts-suc retries in
      rw e (exchange_loop-suc n s RctError.timeout p (λ s' x. exchange_loop-holds n s' x))

module _ {S : Type 0} (try_exchange : Try S) (retries : ℕ) (turn : S → ℕ)
    (counted : Counts S try_exchange turn) where
  -- The turns that `n` attempts may take: at most `n`, and all of them before an error.
  abbrev pub Within : ℕ → S → S → Result DataValue → Type 0
  Within n s s' (ok v) = (turn s' ≤ turn s + n) × (turn s + 1 ≤ turn s')
  Within n s s' (err e) = (turn s' ≡ turn s + n)
  Within n s s' panic = (turn s' ≤ turn s + n) × (turn s + 1 ≤ turn s')

  later :
      (n : ℕ) (s s1 s2 : S) (answer : Result DataValue)
      → turn s1 ≡ turn s + 1
      → Within n s1 s2 answer
      → Within (suc n) s s2 answer
  later n s s1 s2 (ok v) one h = (omega arith, omega arith)
  later n s s1 s2 (err e) one h = omega arith
  later n s s1 s2 panic one h = (omega arith, omega arith)

  exchange_loop-Within :
      (n : ℕ) (s : S) (frame : List ℕ) (t : DataType) (last : RctError)
      → let (s', answer) = exchange_loop try_exchange retries n s frame t last in
        Within n s s' answer
  unfolding exchange_loop
  exchange_loop-Within zero s frame t last = omega arith
  exchange_loop-Within (suc n) s frame t last =
      let (s', answer) = try_exchange s frame t in
      let one : turn s' ≡ turn s + 1 = counted s frame t in
      elim (Result-cases answer) [
        | inl (v, e) ↦ rw (e, exchange_loop) (omega arith, omega arith)
        | inr (inl (x, e)) ↦
            rw (e, exchange_loop) (later n s s' _ _ one (exchange_loop-Within n s' frame t x))
        | inr (inr e) ↦ rw (e, exchange_loop) (omega arith, omega arith)
      ]

  -- Where each attempt takes one turn, an exchange with a value, or a panic, takes at least one
  -- turn and at most the larger of 1 and the retries that are configured; an exchange with an
  -- error takes exactly as many.
  pub exchange-Within :
      (s : S) (frame : List ℕ) (t : DataType)
      → let (s', answer) = exchange try_exchange retries s frame t in
        Within (max 1 retries) s s' answer
  unfolding exchange
  exchange-Within s frame t =
      let (s', answer) = exchange try_exchange retries s frame t in
      subst (λ n. Within n s s' answer) (attempts-max retries)
        (exchange_loop-Within (attempts retries) s frame t RctError.timeout)

-- The state after `n` attempts.
abbrev pub after_tries : {S : Type 0} → Try S → List ℕ → DataType → ℕ → S → S
after_tries try_exchange frame t zero s = s
after_tries try_exchange frame t (suc n) s =
    after_tries try_exchange frame t n (try_exchange s frame t).0

-- An attempt that gives an error.
abbrev pub Fails : (S : Type 0) → Try S → List ℕ → DataType → S → Type 0
Fails S try_exchange frame t s = (e : RctError) × ((try_exchange s frame t).1 ≡ err e)

module _ {S : Type 0} (try_exchange : Try S) (retries : ℕ) (frame : List ℕ) (t : DataType) where
  exchange_loop-recovers :
      (n k : ℕ) (s s' : S) (v : DataValue) (last : RctError)
      → k < n
      → ((i : ℕ) → i < k → Fails S try_exchange frame t (after_tries try_exchange frame t i s))
      → try_exchange (after_tries try_exchange frame t k s) frame t ≡ (s', ok v)
      → exchange_loop try_exchange retries n s frame t last ≡ (s', ok v)
  unfolding exchange_loop
  exchange_loop-recovers zero k s s' v last more fails works = absurd (omega (arith, more))
  exchange_loop-recovers (suc n) zero s s' v last more fails works =
      let h : (try_exchange s frame t).1 ≡ ok v = ap (λ p. p.1) works in
      rw (h, exchange_loop) (ap (λ p. (p.0, ok v)) works)
  exchange_loop-recovers (suc n) (suc k) s s' v last more fails works =
      let (e, h) = fails 0 (omega arith) in
      rw (h, exchange_loop)
        (exchange_loop-recovers n k (try_exchange s frame t).0 s' v e (omega (arith, more))
          (λ i below. fails (suc i) (omega arith)) works)

  -- For any `try_exchange`: when the first `k` attempts fail with errors and the next gives a
  -- value, and there are more than `k` attempts, the exchange gives this value, in the state
  -- after it.
  pub exchange-recovers :
      (k : ℕ) (s s' : S) (v : DataValue)
      → k < attempts retries
      → ((i : ℕ) → i < k → Fails S try_exchange frame t (after_tries try_exchange frame t i s))
      → try_exchange (after_tries try_exchange frame t k s) frame t ≡ (s', ok v)
      → exchange try_exchange retries s frame t ≡ (s', ok v)
  unfolding exchange
  exchange-recovers k s s' v more fails works =
      exchange_loop-recovers (attempts retries) k s s' v RctError.timeout more fails works
