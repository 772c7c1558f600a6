-- ===== src/Types.antt =====
-- src/types.rs: the declarations of the protocol.
pub mod Command
pub mod ObjectGroup
pub mod DataType
pub mod DataValue
