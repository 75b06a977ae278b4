-- ===== src/Examples.antt =====
-- Runs of the model on small inputs, which apply its theorems.
pub mod Fake
pub mod Bottom
pub mod Channels
pub mod Peers
pub mod Lives
pub mod Configs
pub mod Streams
pub mod Wirings
pub mod Programs
