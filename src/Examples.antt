-- ===== src/Examples.antt =====
-- The theorems applied to small concrete inputs, each of which runs the code.
mod Download
mod Wire
mod Conversions
mod Values
mod Sources
mod Screens
mod Threads
mod Clients
mod Sessions
mod Files
