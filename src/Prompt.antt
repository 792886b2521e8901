-- ===== src/Prompt.antt =====
-- One prompt turn: `handlePrompt` of request_handlers.go and session_context.go. The executor, which
-- the user of the library supplies, is a tree of the calls that it makes.
pub mod Context
pub mod Executor
pub mod Announce
pub mod Turn
pub mod Answer
pub mod Cancelled
