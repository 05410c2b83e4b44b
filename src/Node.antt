-- ===== src/Node.antt =====
-- The package node: the client's flags and replies, the string commands, and the access control.
pub mod Flags
pub mod Client
pub mod Options
pub mod StrCmd
pub mod Command
pub mod Process
