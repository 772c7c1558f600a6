-- ===== src/RctProxy.antt =====
-- examples/rct_proxy.rs: the proxy that `main` binds, from its arguments. The log and the lines
-- printed leave no trace; `serve` is in Proxy/Interleaved.
use rctpower_protocol.Base.{ℕ, ◌≤◌, ◌≡◌, refl, arith, some}
use rctpower_protocol.Base.{[], ◌∷◌, ◌++◌, ◌==◌, true, false}
use rctpower_protocol.Base.Text.{Text, decimal}
use rctpower_protocol.Base.Strings.{behind, parse_unsigned}
use rctpower_protocol.Base.Strings.Split.{Without}
use rctpower_protocol.Base.Strings.Digits.{parse_unsigned-decimal}
use rctpower_protocol.Error.{Result}
use rctpower_protocol.Client.Network.{Io}
use rctpower_protocol.Client.Config.{ClientConfig, default}
use rctpower_protocol.Proxy.Bind.{Proxy, bind}

pub record Cli : Type 0 where
  pub port : ℕ
  pub host : Text
  pub inverter_port : ℕ

abbrev pub config : Cli → ClientConfig
config cli = record default { port = cli.port }

unfoldable pub address : Cli → Text
unfolding decimal
address cli = cli.host ++ (b':' ∷ decimal cli.inverter_port)

-- `main`, up to the start of `serve`.
unfoldable pub main : (ℕ → Io ℕ) → Cli → Result Proxy
unfolding address bind
main listen cli = bind listen (address cli) (config cli)

behind_first : (c : ℕ) (s rest : Text) → Without c s → behind c (s ++ (c ∷ rest)) ≡ some rest
unfolding behind
behind_first c [] rest h = let here : (c == c) ≡ true = ground arith in rw here refl
behind_first c (d ∷ s) rest (other, h) =
    let miss : (d == c) ≡ false = ground arith in rw miss (behind_first c s rest h)

-- What stands behind the host and the colon of the address is the port of the inverter.
pub address-parse :
    (cli : Cli)
    → Without b':' cli.host
    → cli.inverter_port ≤ 65535
    → (digits : Text) × (behind b':' (address cli) ≡ some digits)
      × (parse_unsigned 10 65535 digits ≡ some cli.inverter_port)
unfolding address
address-parse cli plain small = (
  decimal cli.inverter_port,
  behind_first b':' cli.host (decimal cli.inverter_port) plain,
  parse_unsigned-decimal 65535 cli.inverter_port small,
)
