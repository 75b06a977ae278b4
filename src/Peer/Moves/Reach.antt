-- ===== src/Peer/Moves/Reach.antt =====
-- How a connection (aiolibdatachannel/peer_connection.py) and its channels can be reached through
-- the registries of aiolibdatachannel/_core.py.
pub mod Owns
pub mod Released
pub mod Made
pub mod Like
pub mod State
pub mod Stages
pub mod Runs
