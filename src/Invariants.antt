-- ===== src/Invariants.antt =====
-- Invariants of the server's state: the rules that reduce one to the critical sections of server.go and
-- request_handlers.go, their use on each part of the server, and two invariants.
pub mod Rules
pub mod Sections
pub mod Updates
pub mod Tools
pub mod Prompt
pub mod Handlers
pub mod System
pub mod Directories
pub mod Correlation
