-- ===== src/Proxy/Bind.antt =====
-- `Proxy` and `Proxy::bind` of src/proxy.rs. `listen` is the bind of the listener to a local port.
use rctpower_protocol.Base.{ℕ, Option, none}
use rctpower_protocol.Base.Text.{Text}
use rctpower_protocol.Error.{Result, ok, ◌>>=◌}
use rctpower_protocol.Client.Network.{Io, io}
use rctpower_protocol.Client.Config.{ClientConfig}

pub record Proxy : Type 0 where
  pub listener : ℕ
  pub inverter_addr : Text
  pub cfg : ClientConfig
  pub upstream : Option ℕ

unfoldable pub bind : (ℕ → Io ℕ) → Text → ClientConfig → Result Proxy
bind listen inverter_addr cfg = do
  listener ← io (listen cfg.port)
  ok (record { listener = listener; inverter_addr = inverter_addr; cfg = cfg; upstream = none })
