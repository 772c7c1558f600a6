-- ===== src/Tests/Clock.antt =====
-- The theorems on the loops with a clock at concrete inputs.
use rctpower_protocol.Base.{ℕ, ◌+◌, ◌≤◌, ◌≡◌, refl, arith, false, none, some, [], ◌∷◌}
use rctpower_protocol.Error.{would_block}
use rctpower_protocol.Frame.Receive.{new}
use rctpower_protocol.Client.Network.{done, failed}
use rctpower_protocol.Client.Blocking
use rctpower_protocol.Client.Pooled
use rctpower_protocol.Client.Clock.{Read, read_until, read_before, read_each}
use rctpower_protocol.Client.Clock.Ends.{in_time, read_until-receive}
use rctpower_protocol.Client.Clock.Before.{in_window, read_before-receive}
use rctpower_protocol.Client.Clock.Endless.{IsChatter, read_each_endless}

-- Nothing comes for two ticks, again and again.
abbrev silent : ℕ → Read
silent k = record { elapsed = 2; outcome = failed would_block }

read_until-receive_example :
    (t : ℕ) × (t ≤ 10 + 5 + 2)
    × (read_until silent (10 + 5) (5 + 2) 10 0 (new false)
        ≡ some (t, Blocking.receive (new false) (in_time silent (10 + 5) (5 + 2) 10 0)))
read_until-receive_example = read_until-receive silent 5 10 2 (λ k. omega arith) (λ k. omega arith)

-- A zero byte comes every tick.
abbrev zeros : ℕ → Read
zeros k = record { elapsed = 1; outcome = done (0 ∷ []) }

read_before-receive_example :
    (t : ℕ) × (t ≤ 10 + 5)
    × (read_before zeros (10 + 5) (5 + 1) 10 0 (new false)
        ≡ some (t, Pooled.receive (new false) (in_window zeros (10 + 5) (5 + 1) 10 0)))
read_before-receive_example = read_before-receive zeros 5 10 (λ k. omega arith)

zeros-IsChatter : (k : ℕ) → IsChatter 5 (zeros k)
zeros-IsChatter k = record {
  first = 0;
  others = [];
  heard = refl;
  clean = ((λ e. cc), tt);
  prompt = omega arith;
}

read_each_endless_example : read_each zeros 5 1000 10 0 (new false) ≡ none
read_each_endless_example = read_each_endless zeros 5 1000 10 zeros-IsChatter
