-- ===== src/Tests.antt =====
-- Runs of the model on concrete inputs, and the theorems at inputs where their hypotheses hold.
mod Options
mod Runs
mod Boards
mod Setup
mod Sealing
mod Starts
mod Reads
mod CommandLines
mod Refusals
mod ToyPacking
mod Toy
mod Pastes
mod Configs
mod Pins
mod Threads
mod Returns
mod Packets
