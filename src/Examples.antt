-- ===== src/Examples.antt =====
-- Runs of the program at concrete inputs.
mod World
mod Reconciling
mod Serving
mod Configuring
mod Commanding
mod Chatting
mod Starting
mod Storing
