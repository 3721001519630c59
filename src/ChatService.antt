-- ===== src/ChatService.antt =====
-- src/server/chatservice.cpp. The children model its handlers over one state.
pub mod State
pub mod Protocol
pub mod Chat
pub mod Session
pub mod Groups
pub mod Inbox
pub mod Delivery
pub mod Dispatch
pub mod Keeps
pub mod Sound
pub mod Members
pub mod Preservation
pub mod Outcomes
pub mod Quiet
pub mod Entry
pub mod Registration
pub mod Membership
pub mod Silence
pub mod Departure
pub mod Absence
pub mod Registry
pub mod Refinement
pub mod Origin
pub mod Loops
pub mod Stranded
