-- ===== src/Tests/Golden.antt =====
-- The tests that stand in the source files, run on the model.
mod Frame
mod Codec
mod Writable
mod Registry
mod Simulator
mod Pooled
mod Proxy
