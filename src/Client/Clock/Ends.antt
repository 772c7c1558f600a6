-- ===== src/Client/Clock/Ends.antt =====
-- The loop of src/client.rs, which has a deadline.
use rctpower_protocol.Base.{ℕ, zero, suc, ◌+◌, ◌≤◌, ◌<◌, ◌≡◌, refl, sym, ap, ◌∙◌, arith}
use rctpower_protocol.Base.{true, false, Option, none, some}
use rctpower_protocol.Base.{List, [], ◌∷◌, ltb, Bool-cases, inl, inr, Option-cases}
use rctpower_protocol.Error.{RctError, Result, ok, err}
use rctpower_protocol.Frame.Receive.{ReceiveFrame, new}
use rctpower_protocol.Client.Network.{Io}
use rctpower_protocol.Client.Blocking
use rctpower_protocol.Client.Clock.{Read, Ended, read_until, take_read}
use rctpower_protocol.Client.Clock.{take_blocking}

-- An answer of `read` in the list model of the loop.
receive_over :
    (rx : ReceiveFrame) (event : Io (List ℕ)) (events : List (Io (List ℕ)))
    (answer : Result ReceiveFrame)
    → rx.complete ≡ false
    → (take_blocking rx event).1 ≡ some answer
    → Blocking.receive rx (event ∷ events) ≡ answer
unfolding Blocking.receive take_blocking take_read
receive_over rx event events answer h o = ground arith

receive_on :
    (rx : ReceiveFrame) (event : Io (List ℕ)) (events : List (Io (List ℕ)))
    → rx.complete ≡ false
    → (take_blocking rx event).1 ≡ none
    → Blocking.receive rx (event ∷ events) ≡ Blocking.receive (take_blocking rx event).0 events
unfolding Blocking.receive take_blocking take_read
receive_on rx event events h o = ground arith

receive_full :
    (rx : ReceiveFrame) (events : List (Io (List ℕ)))
    → rx.complete ≡ true
    → Blocking.receive rx events ≡ ok rx
unfolding Blocking.receive
receive_full rx [] h = rw h
receive_full rx (event ∷ events) h = rw h

receive_late :
    (rx : ReceiveFrame) → rx.complete ≡ false → Blocking.receive rx [] ≡ err RctError.timeout
unfolding Blocking.receive
receive_late rx h = rw h

module _ (reads : ℕ → Read) (deadline : ℕ) where
  -- What the reads answer that begin by the deadline.
  unfoldable pub in_time : (fuel now k : ℕ) → List (Io (List ℕ))
  in_time zero now k = []
  in_time (suc fuel) now k = elim (ltb deadline now) [
    | true ↦ []
    | false ↦ (reads k).outcome ∷ in_time fuel (now + (reads k).elapsed) (k + 1)
  ]

  in_time_late : (fuel now k : ℕ) → ltb deadline now ≡ true → in_time (suc fuel) now k ≡ []
  unfolding in_time
  in_time_late fuel now k l = rw (in_time, l) refl

  in_time_on :
      (fuel now k : ℕ)
      → ltb deadline now ≡ false
      → in_time (suc fuel) now k
        ≡ (reads k).outcome ∷ in_time fuel (now + (reads k).elapsed) (k + 1)
  unfolding in_time
  in_time_on fuel now k l = rw (in_time, l) refl

  -- The loop has ended by `limit` ticks behind the deadline, with `answer`.
  pub record Ends (limit : ℕ) (answer : Result ReceiveFrame) (run : Option Ended) : Type 0 where
    pub time : ℕ
    pub by : time ≤ deadline + limit
    pub ended : run ≡ some (time, answer)

  module _ (fuel now k : ℕ) (rx : ReceiveFrame) where
    until_complete :
        rx.complete ≡ true → read_until reads deadline (suc fuel) now k rx ≡ some (now, ok rx)
    unfolding read_until
    until_complete h = rw h

    until_late :
        rx.complete ≡ false
        → ltb deadline now ≡ true
        → read_until reads deadline (suc fuel) now k rx ≡ some (now, err RctError.timeout)
    unfolding read_until
    until_late h l = ground arith

    until_over :
        (answer : Result ReceiveFrame)
        → rx.complete ≡ false
        → ltb deadline now ≡ false
        → (take_blocking rx (reads k).outcome).1 ≡ some answer
        → read_until reads deadline (suc fuel) now k rx ≡ some (now + (reads k).elapsed, answer)
    unfolding read_until
    until_over answer h l o = ground arith

    until_on :
        rx.complete ≡ false
        → ltb deadline now ≡ false
        → (take_blocking rx (reads k).outcome).1 ≡ none
        → read_until reads deadline (suc fuel) now k rx
          ≡ read_until reads deadline fuel
              (now + (reads k).elapsed)
              (k + 1)
              (take_blocking rx (reads k).outcome).0
    unfolding read_until
    until_on h l o = ground arith

  -- From any point of the loop on.
  read_until-Ends :
      (limit : ℕ)
      → ((k : ℕ) → 1 ≤ (reads k).elapsed)
      → ((k : ℕ) → (reads k).elapsed ≤ limit)
      → (fuel now k : ℕ) (rx : ReceiveFrame) → 0 < fuel
      → deadline + 2 ≤ now + fuel
      → now ≤ deadline + limit
      → Ends limit
          (Blocking.receive rx (in_time fuel now k))
          (read_until reads deadline fuel now k rx)
  unfolding in_time
  read_until-Ends limit moves short zero now k rx some_fuel enough soon = absurd (omega arith)
  read_until-Ends limit moves short (suc fuel) now k rx some_fuel enough soon =
      let later = now + (reads k).elapsed in
      elim (Bool-cases rx.complete) [
        | inl h ↦ record {
          time = now;
          by = soon;
          ended =
              until_complete fuel now k rx h ∙ ap (λ a. some (now, a)) (sym (receive_full rx _ h));
        }
        | inr h ↦ elim (Bool-cases (ltb deadline now)) [
          | inl l ↦ record {
            time = now;
            by = soon;
            ended =
                until_late fuel now k rx h l
                ∙ ap (λ a. some (now, a))
                    (sym
                      (ap (Blocking.receive rx) (in_time_late fuel now k l) ∙ receive_late rx h));
          }
          | inr l ↦
              let event = (reads k).outcome in
              let listed = ap (Blocking.receive rx) (in_time_on fuel now k l) in
              elim (Option-cases (take_blocking rx event).1) [
                | inr (answer, o) ↦ record {
                  time = later;
                  by = ground (arith, short k);
                  ended =
                      until_over fuel now k rx answer h l o
                      ∙ ap (λ a. some (later, a))
                          (sym (listed ∙ receive_over rx event _ answer h o));
                }
                | inl o ↦
                    let rest =
                      read_until-Ends limit moves short fuel later (k + 1)
                        (take_blocking rx event).0 (ground (arith, moves k))
                        (ground (arith, moves k)) (ground (arith, short k)) in
                    record {
                      time = rest.time;
                      by = rest.by;
                      ended =
                          until_on fuel now k rx h l o
                          ∙ rest.ended
                          ∙ ap (λ a. some (rest.time, a))
                              (sym (listed ∙ receive_on rx event _ h o));
                    }
              ]
        ]
      ]

-- Where each call of `read` takes at least one tick and at most `limit`, the loop of the blocking
-- client ends: `timeout + 2` units of fuel are enough from the time `begin` on. It has ended
-- `timeout + limit` ticks later at the latest, with what `receive` makes of the reads that begin
-- by the deadline.
pub read_until-receive :
    (reads : ℕ → Read) (timeout begin limit : ℕ)
    → ((k : ℕ) → 1 ≤ (reads k).elapsed)
    → ((k : ℕ) → (reads k).elapsed ≤ limit)
    → let heard = in_time reads (begin + timeout) (timeout + 2) begin 0 in
      (t : ℕ) × (t ≤ begin + timeout + limit)
      × (read_until reads (begin + timeout) (timeout + 2) begin 0 (new false)
          ≡ some (t, Blocking.receive (new false) heard))
read_until-receive reads timeout begin limit moves short =
    let e =
      read_until-Ends reads (begin + timeout) limit moves short (timeout + 2) begin 0 (new false)
        (omega arith) (omega arith) (omega arith) in
    (e.time, e.by, e.ended)
