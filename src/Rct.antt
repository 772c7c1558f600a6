-- ===== src/Rct.antt =====
-- The commands `get` and `set` of examples/rct.rs, over the blocking client. The host is a network;
-- what the command prints at its end is its outcome. `params` only prints the table WRITABLE.
pub mod Safety
pub mod Main
use rctpower_protocol.Base.{ℕ, Bool, true, false, Option, none, some}
use rctpower_protocol.Base.Text.{Text}
use rctpower_protocol.Error.{RctError, Result, ok, err, panic}
use rctpower_protocol.Types.DataValue.{DataValue, Floats}
use rctpower_protocol.Registry.{ObjectInfo}
use rctpower_protocol.Registry.Build.{Registry, get_by_name}
use rctpower_protocol.Writable.{validate, parse_value}
use rctpower_protocol.Client.Network.{Network}
use rctpower_protocol.Client.Blocking.{Client, read, write}

pub data Outcome : Type 0 where
  -- The safety gate.
  refused : Outcome
  unknown_parameter : Outcome
  failed : RctError → Outcome
  success : DataValue → Outcome
  panicked : Outcome

-- `Client::new`.
abbrev pub new : Client
new = record { conn = none; turn = 0 }

abbrev pub outcome : Result DataValue → Outcome
outcome (ok v) = success v
outcome (err e) = failed e
outcome panic = panicked

-- The client, where one has been made, and the outcome.
unfoldable pub get : Registry → Network → ℕ → Text → Option Client × Outcome
get reg net retries parameter = elim (get_by_name reg parameter) [
  | none ↦ (none, unknown_parameter)
  | some obj ↦ let (client, answer) = read net retries new obj in (some client, outcome answer)
]

-- The last part of `set`, with a value.
unfoldable pub set_value :
    Registry → Floats → Network → ℕ → Text → ObjectInfo → DataValue → Option Client × Outcome
set_value reg floats net retries parameter obj v = elim (validate reg floats parameter v) [
  | ok u ↦
      let (client, answer) = write net retries floats new obj v in
      (some client, elim answer [ ok w ↦ success v | err e ↦ failed e | panic ↦ panicked ])
  | err e ↦ (none, failed e)
  | panic ↦ (none, panicked)
]

unfoldable pub set :
    Registry
    → Floats
    → (Text → Option ℕ)
    → Network
    → ℕ
    → Text
    → Text
    → Bool
    → Option Client × Outcome
unfolding set_value
set reg floats parse_f32 net retries parameter value false = (none, refused)
set reg floats parse_f32 net retries parameter value true = elim (get_by_name reg parameter) [
  | none ↦ (none, unknown_parameter)
  | some obj ↦ elim (parse_value reg floats parse_f32 parameter value) [
    | ok v ↦ set_value reg floats net retries parameter obj v
    | err e ↦ (none, failed e)
    | panic ↦ (none, panicked)
  ]
]
