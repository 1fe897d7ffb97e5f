-- ===== src/Publish.antt =====
-- cli/pub_command.go: what the publish command sends.
pub mod Action
pub mod Loops
pub mod Message
pub mod Schedule
pub mod Samples
pub mod Stdin
pub mod Atomic
