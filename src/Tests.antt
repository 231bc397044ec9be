-- ===== src/Tests.antt =====
-- The theorems of the development at concrete inputs, and runs of the code on them.
mod Parameters
mod Voice
mod Chat
mod Overlay
mod Memory
mod Settings
mod Process
mod Slots
mod Connection
mod Rounds
mod Frames
