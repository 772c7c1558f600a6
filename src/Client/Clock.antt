-- ===== src/Client/Clock.antt =====
-- The loops that read a frame, with the clock that they look at: `try_exchange` of src/client.rs,
-- `exchange_on` of src/async_client.rs and of src/proxy.rs. Time is counted in ticks and passes in
-- the calls of `read` only. The loops are on fuel, and `none` is the end of the fuel.
pub mod Ends
pub mod Before
pub mod Endless
use rctpower_protocol.Base.{ℕ, zero, suc, ◌+◌, ◌-◌, Bool, true, false, Option, none, some}
use rctpower_protocol.Base.{List, [], ◌∷◌, ltb}
use rctpower_protocol.Error.{would_block, other_kind, RctError, Result, ok, err, panic}
use rctpower_protocol.Frame.Receive.{ReceiveFrame, consume}
use rctpower_protocol.Client.Network.{Io, done, failed}

-- What a call of `read` answers, and after how many ticks.
pub record Read : Type 0 where
  pub elapsed : ℕ
  pub outcome : Io (List ℕ)

-- The time at which a loop ends, and with what.
abbrev pub Ended : Type 0
Ended = ℕ × Result ReceiveFrame

-- What an answer of `read` makes of the parser, and the result where it ends the loop.
unfoldable pub take_read : ReceiveFrame → Io (List ℕ) → ReceiveFrame × Option (Result ReceiveFrame)
take_read rx (done []) = (rx, some (err RctError.timeout))
take_read rx (done (b ∷ bytes)) =
    let (rx', answer) = consume rx (b ∷ bytes) in
    elim answer [ ok n ↦ (rx', none) | err e ↦ (rx', some (err e)) | panic ↦ (rx', some panic) ]
take_read rx (failed kind) = (rx, some (err (RctError.io kind)))

-- The blocking client reads again after `WouldBlock`.
unfoldable pub take_blocking :
    ReceiveFrame → Io (List ℕ) → ReceiveFrame × Option (Result ReceiveFrame)
unfolding take_read
take_blocking rx (failed would_block) = (rx, none)
take_blocking rx (failed (other_kind kind)) = take_read rx (failed (other_kind kind))
take_blocking rx (done bytes) = take_read rx (done bytes)

-- `reads k` is the call number `k`.
module _ (reads : ℕ → Read) where
  -- The blocking client: a deadline before each read, while the read has a timeout of its own.
  unfoldable pub read_until : (deadline : ℕ) → (fuel now k : ℕ) → ReceiveFrame → Option Ended
  unfolding take_blocking
  read_until deadline zero now k rx = none
  read_until deadline (suc fuel) now k rx = elim rx.complete [
    | true ↦ some (now, ok rx)
    | false ↦ elim (ltb deadline now) [
      | true ↦ some (now, err RctError.timeout)
      | false ↦
          let later = now + (reads k).elapsed in
          let (rx', over) = take_blocking rx (reads k).outcome in
          elim over [
            | some answer ↦ some (later, answer)
            | none ↦ read_until deadline fuel later (k + 1) rx'
          ]
    ]
  ]

  -- The proxy: a deadline before each read, and the time that is left for the read.
  unfoldable pub read_before : (deadline : ℕ) → (fuel now k : ℕ) → ReceiveFrame → Option Ended
  unfolding take_read
  read_before deadline zero now k rx = none
  read_before deadline (suc fuel) now k rx = elim rx.complete [
    | true ↦ some (now, ok rx)
    | false ↦ elim (ltb deadline now) [
      | true ↦ some (now, err RctError.timeout)
      | false ↦ elim (ltb (deadline - now) (reads k).elapsed) [
        | true ↦ some (deadline, err RctError.timeout)
        | false ↦
            let later = now + (reads k).elapsed in
            let (rx', over) = take_read rx (reads k).outcome in
            elim over [
              | some answer ↦ some (later, answer)
              | none ↦ read_before deadline fuel later (k + 1) rx'
            ]
      ]
    ]
  ]

  -- The pooled client: the same time for each read.
  unfoldable pub read_each : (timeout : ℕ) → (fuel now k : ℕ) → ReceiveFrame → Option Ended
  unfolding take_read
  read_each timeout zero now k rx = none
  read_each timeout (suc fuel) now k rx = elim rx.complete [
    | true ↦ some (now, ok rx)
    | false ↦ elim (ltb timeout (reads k).elapsed) [
      | true ↦ some (now + timeout, err RctError.timeout)
      | false ↦
          let later = now + (reads k).elapsed in
          let (rx', over) = take_read rx (reads k).outcome in
          elim over [
            | some answer ↦ some (later, answer)
            | none ↦ read_each timeout fuel later (k + 1) rx'
          ]
    ]
  ]
