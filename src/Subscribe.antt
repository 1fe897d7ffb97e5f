-- ===== src/Subscribe.antt =====
-- cli/sub_command.go: what the subscribe command does with the messages that arrive.
pub mod Handlers
pub mod Inputs
pub mod JetStream
