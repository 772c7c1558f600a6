-- ===== src/Client/Clock/Before.antt =====
-- The loop of src/proxy.rs, which has a deadline for its reads as well.
use rctpower_protocol.Base.{ℕ, zero, suc, ◌+◌, ◌-◌, ◌||◌, ◌≤◌, ◌≡◌, refl, sym, ap, ◌∙◌}
use rctpower_protocol.Base.{arith, true, false, Option, none, some}
use rctpower_protocol.Base.{List, [], ◌∷◌, ltb, Bool-cases, inl, inr, Option-cases}
use rctpower_protocol.Error.{RctError, Result, ok, err}
use rctpower_protocol.Frame.Receive.{ReceiveFrame, new}
use rctpower_protocol.Client.Network.{Io}
use rctpower_protocol.Client.Pooled
use rctpower_protocol.Client.Clock.{Read, Ended, read_before, take_read}

-- An answer of `read` in the list model of the loop, which the proxy and the pooled client share.
pub receive_over :
    (rx : ReceiveFrame) (event : Io (List ℕ)) (events : List (Io (List ℕ)))
    (answer : Result ReceiveFrame)
    → rx.complete ≡ false
    → (take_read rx event).1 ≡ some answer
    → Pooled.receive rx (event ∷ events) ≡ answer
unfolding Pooled.receive take_read
receive_over rx event events answer h o = ground arith

pub receive_on :
    (rx : ReceiveFrame) (event : Io (List ℕ)) (events : List (Io (List ℕ)))
    → rx.complete ≡ false
    → (take_read rx event).1 ≡ none
    → Pooled.receive rx (event ∷ events) ≡ Pooled.receive (take_read rx event).0 events
unfolding Pooled.receive take_read
receive_on rx event events h o = ground arith

pub receive_full :
    (rx : ReceiveFrame) (events : List (Io (List ℕ)))
    → rx.complete ≡ true
    → Pooled.receive rx events ≡ ok rx
unfolding Pooled.receive
receive_full rx [] h = rw h
receive_full rx (event ∷ events) h = rw h

pub receive_late :
    (rx : ReceiveFrame) → rx.complete ≡ false → Pooled.receive rx [] ≡ err RctError.timeout
unfolding Pooled.receive
receive_late rx h = rw h

module _ (reads : ℕ → Read) (deadline : ℕ) where
  -- What the reads answer that end by the deadline.
  unfoldable pub in_window : (fuel now k : ℕ) → List (Io (List ℕ))
  in_window zero now k = []
  in_window (suc fuel) now k = elim (ltb deadline now || ltb (deadline - now) (reads k).elapsed) [
    | true ↦ []
    | false ↦ (reads k).outcome ∷ in_window fuel (now + (reads k).elapsed) (k + 1)
  ]

  in_window_late :
      (fuel now k : ℕ)
      → (ltb deadline now || ltb (deadline - now) (reads k).elapsed) ≡ true
      → in_window (suc fuel) now k ≡ []
  unfolding in_window
  in_window_late fuel now k l = rw (in_window, l) refl

  in_window_on :
      (fuel now k : ℕ)
      → (ltb deadline now || ltb (deadline - now) (reads k).elapsed) ≡ false
      → in_window (suc fuel) now k
        ≡ (reads k).outcome ∷ in_window fuel (now + (reads k).elapsed) (k + 1)
  unfolding in_window
  in_window_on fuel now k l = rw (in_window, l) refl

  -- The loop has ended by the deadline, with `answer`.
  pub record Ends (answer : Result ReceiveFrame) (run : Option Ended) : Type 0 where
    pub time : ℕ
    pub by : time ≤ deadline
    pub ended : run ≡ some (time, answer)

  module _ (fuel now k : ℕ) (rx : ReceiveFrame) where
    before_complete :
        rx.complete ≡ true → read_before reads deadline (suc fuel) now k rx ≡ some (now, ok rx)
    unfolding read_before
    before_complete h = rw h

    -- By the deadline; a read that does not end by then is given up.
    before_late :
        rx.complete ≡ false
        → now ≤ deadline
        → ltb (deadline - now) (reads k).elapsed ≡ true
        → read_before reads deadline (suc fuel) now k rx ≡ some (deadline, err RctError.timeout)
    unfolding read_before
    before_late h n l = ground arith

    before_over :
        (answer : Result ReceiveFrame)
        → rx.complete ≡ false
        → now ≤ deadline
        → ltb (deadline - now) (reads k).elapsed ≡ false
        → (take_read rx (reads k).outcome).1 ≡ some answer
        → read_before reads deadline (suc fuel) now k rx ≡ some (now + (reads k).elapsed, answer)
    unfolding read_before
    before_over answer h n l o = ground arith

    before_on :
        rx.complete ≡ false
        → now ≤ deadline
        → ltb (deadline - now) (reads k).elapsed ≡ false
        → (take_read rx (reads k).outcome).1 ≡ none
        → read_before reads deadline (suc fuel) now k rx
          ≡ read_before reads deadline fuel
              (now + (reads k).elapsed)
              (k + 1)
              (take_read rx (reads k).outcome).0
    unfolding read_before
    before_on h n l o = ground arith

  -- From any point of the loop on.
  read_before-Ends :
      ((k : ℕ) → 1 ≤ (reads k).elapsed)
      → (fuel now k : ℕ) (rx : ReceiveFrame) → deadline + 1 ≤ now + fuel
      → now ≤ deadline
      → Ends (Pooled.receive rx (in_window fuel now k)) (read_before reads deadline fuel now k rx)
  read_before-Ends moves zero now k rx enough soon = absurd (omega arith)
  read_before-Ends moves (suc fuel) now k rx enough soon =
      let later = now + (reads k).elapsed in
      elim (Bool-cases rx.complete) [
        | inl h ↦ record {
          time = now;
          by = soon;
          ended =
              before_complete fuel now k rx h ∙ ap (λ a. some (now, a)) (sym (receive_full rx _ h));
        }
        | inr h ↦ elim (Bool-cases (ltb (deadline - now) (reads k).elapsed)) [
          | inl l ↦
              let listed = ap (Pooled.receive rx) (in_window_late fuel now k (ground arith)) in
              record {
                time = deadline;
                by = omega arith;
                ended =
                    before_late fuel now k rx h soon l
                    ∙ ap (λ a. some (deadline, a)) (sym (listed ∙ receive_late rx h));
              }
          | inr l ↦
              let event = (reads k).outcome in
              let listed = ap (Pooled.receive rx) (in_window_on fuel now k (ground arith)) in
              elim (Option-cases (take_read rx event).1) [
                | inr (answer, o) ↦ record {
                  time = later;
                  by = ground arith;
                  ended =
                      before_over fuel now k rx answer h soon l o
                      ∙ ap (λ a. some (later, a))
                          (sym (listed ∙ receive_over rx event _ answer h o));
                }
                | inl o ↦
                    let rest =
                      read_before-Ends moves fuel later (k + 1) (take_read rx event).0
                        (ground (arith, moves k)) (ground arith) in
                    record {
                      time = rest.time;
                      by = rest.by;
                      ended =
                          before_on fuel now k rx h soon l o
                          ∙ rest.ended
                          ∙ ap (λ a. some (rest.time, a))
                              (sym (listed ∙ receive_on rx event _ h o));
                    }
              ]
        ]
      ]

-- Where each call of `read` takes at least one tick, the loop of the proxy ends: `timeout + 1`
-- units of fuel are enough from the time `begin` on. It has ended `timeout` ticks later at the
-- latest, with what `receive` makes of the reads that end by the deadline.
pub read_before-receive :
    (reads : ℕ → Read) (timeout begin : ℕ)
    → ((k : ℕ) → 1 ≤ (reads k).elapsed)
    → let heard = in_window reads (begin + timeout) (timeout + 1) begin 0 in
      (t : ℕ) × (t ≤ begin + timeout)
      × (read_before reads (begin + timeout) (timeout + 1) begin 0 (new false)
          ≡ some (t, Pooled.receive (new false) heard))
read_before-receive reads timeout begin moves =
    let e =
      read_before-Ends reads (begin + timeout) moves (timeout + 1) begin 0 (new false) (omega arith)
        (omega arith) in
    (e.time, e.by, e.ended)
