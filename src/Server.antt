-- ===== src/Server.antt =====
-- src/server/main.cpp: the start of the server, and the events that it handles until it is stopped.
pub mod StartUp
pub mod StartLaws
pub mod Run
pub mod Soundness
