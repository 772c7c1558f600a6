-- ===== src/Client/Config.antt =====
-- `ClientConfig` and DEFAULT_PORT of src/client.rs, for both clients and the proxy. A duration is
-- its milliseconds.
use rctpower_protocol.Base.{ℕ}

pub record ClientConfig : Type 0 where
  pub port : ℕ
  pub timeout : ℕ
  pub retries : ℕ
  pub retry_delay : ℕ

abbrev pub default_port : ℕ
default_port = 8899

-- `ClientConfig::default`.
abbrev pub default : ClientConfig
default = record { port = default_port; timeout = 5000; retries = 3; retry_delay = 1000 }
