-- ===== src/Client.antt =====
-- src/client/main.cpp: the commands of the main menu, and what a login response does to the client.
-- The terminal and the socket are outside: a line that was read is an argument.
pub mod Commands
pub mod Response
pub mod Start
pub mod Lines
pub mod Process
pub mod Heard
pub mod Safety
pub mod Menu
pub mod Screen
pub mod Clock
