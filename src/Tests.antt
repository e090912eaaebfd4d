-- ===== src/Tests.antt =====
-- Runs of the modelled code at concrete inputs, one module for each part.
mod Products
mod Deliveries
mod Relaying
mod Workers
mod Rules
mod Runs
mod Retries
mod DeadLetters
mod Records
mod Activations
mod Streams
mod Processing
mod Syncs
mod Checkpoints
mod Paging
