-- ===== src/RedisClient.antt =====
-- src/server/redisclient.cpp. The children model its parts: Core the way a call takes and gives back
-- a connection, Commands the methods that do one, Subscriber the group channels, Thread the
-- subscriber thread from its start to its end.
pub mod Core
pub mod Commands
pub mod Subscriber
pub mod Laws
pub mod Presence
pub mod Inbox
pub mod Channels
pub mod Requests
pub mod Thread
pub mod Loops
pub mod Lifetime
pub mod Registered
pub mod Shutdown
pub mod Listening
