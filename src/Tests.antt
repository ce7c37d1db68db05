-- ===== src/Tests.antt =====
-- Runs of the definitions on concrete inputs.
mod Arena
mod Layout
mod Timespec
mod Table
mod Refined
mod Shutdown
mod Prompt
mod ByteOrder
mod Path
