-- ===== src/Server.antt =====
-- server: the runtime. Each child models one of its parts.
pub mod Resume
pub mod Agents
pub mod Job
pub mod Stream
pub mod Listing
pub mod World
pub mod Session
pub mod Emit
pub mod Submit
pub mod Dispatch
pub mod Tools
mod Samples
