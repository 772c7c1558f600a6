-- ===== src/Tests.antt =====
-- The theorems at concrete inputs.
mod Golden
mod Codec
mod Frame
mod Client
mod Clock
mod Proxy
mod Registry
mod Writable
mod Rct
