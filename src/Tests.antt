-- ===== src/Tests.antt =====
-- Runs of the model on concrete input, and the theorems applied to it.
mod Seats
mod Memory
mod Transfer
mod Requests
mod Text
mod Sessions
mod Whole
mod Server
mod Handshake
mod Waits
mod Api
