-- ===== src/Core.antt =====
-- aiolibdatachannel/_core.py: the wrapper objects over `_native`, their registries, the dispatcher
-- and the shutdown hook.
pub mod Registry
pub mod Dispatch
pub mod InTurn
pub mod Machine
pub mod Calls
pub mod Shutdown
