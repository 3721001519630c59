-- ===== src/Wire.antt =====
-- Client and server together: the texts that one sends, read by the other.
pub mod Requests
pub mod Commands
pub mod Refusal
pub mod Login
pub mod Session
pub mod Arrival
pub mod Cached
pub mod Delivery
pub mod Registration
