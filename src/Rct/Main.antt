-- ===== src/Rct/Main.antt =====
-- `main` of examples/rct.rs, from the command on that the arguments stand for: `Cmd`, the three
-- arms, and the listing of `params`. `network` is what a host is, `shown` the `Display` of f64.
pub mod Listed
use rctpower_protocol.Base.{ℕ, zero, suc, ◌-◌, Bool, Option, none, some, List, [], ◌∷◌, ◌++◌, map}
use rctpower_protocol.Base.{length, if◌then◌else◌}
use rctpower_protocol.Base.Bytes.{codes}
use rctpower_protocol.Base.Text.{Text, decimal}
use rctpower_protocol.Types.DataValue.{Floats}
use rctpower_protocol.Registry.Build.{Registry}
use rctpower_protocol.Writable.{Rule, writable}
use rctpower_protocol.Writable.Double.{is_nan}
use rctpower_protocol.Client.Network.{Network}
use rctpower_protocol.Client.Config.{default}
use rctpower_protocol.Client.Blocking.{Client}
use rctpower_protocol.Rct
use rctpower_protocol.Rct.{Outcome}

pub data Cmd : Type 0 where
  get : (parameter host : Text) → Cmd
  set : (parameter value host : Text) → (confirmed : Bool) → Cmd
  params : Cmd

abbrev spaces : ℕ → Text
spaces zero = []
spaces (suc n) = b' ' ∷ spaces n

-- `{:<width}` and `{:>width}` of a text of ASCII characters.
abbrev pub pad_right : ℕ → Text → Text
pad_right width s = s ++ spaces (width - length s)

abbrev pub pad_left : ℕ → Text → Text
pad_left width s = spaces (width - length s) ++ s

-- The last column of the heading is wider than the column of numbers below it.
abbrev pub columns : Text → Text → Text → Text
columns name range decimals =
    pad_right 34 name ++ (b' ' ∷ (pad_left 10 range ++ (b' ' ∷ b' ' ∷ decimals)))

unfoldable pub range : (ℕ → Text) → Rule → Text
unfolding is_nan
range shown r = if is_nan r.min then codes "bool" else shown r.min ++ (codes ".." ++ shown r.max)

unfoldable pub line : (ℕ → Text) → Rule → Text
unfolding range decimal
line shown r = columns r.name (range shown r) (decimal r.decimals)

unfoldable pub listing : (ℕ → Text) → List Text
unfolding line
listing shown =
    columns (codes "PARAMETER") (codes "RANGE") (codes "DECIMALS") ∷ map (line shown) writable

-- What a run leaves: the lines of `params`, or the client where one has been made and the outcome.
pub data Run : Type 0 where
  listed : (lines : List Text) → Run
  ran : (client : Option Client) → Outcome → Run

unfoldable pub main :
    Registry → Floats → (Text → Option ℕ) → (ℕ → Text) → (Text → Network) → Cmd → Run
main reg floats parse_f32 shown network Cmd.params = listed (listing shown)
main reg floats parse_f32 shown network (Cmd.get parameter host) =
    let (client, outcome) = Rct.get reg (network host) default.retries parameter in
    ran client outcome
main reg floats parse_f32 shown network (Cmd.set parameter value host confirmed) =
    let (client, outcome) =
      Rct.set reg floats parse_f32 (network host) default.retries parameter value confirmed in
    ran client outcome
