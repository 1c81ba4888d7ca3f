-- ===== src/Tests.antt =====
-- Runs of the model on concrete inputs, and instances of the theorems.
mod Auth
mod Demo
mod Hex
mod Indexer
mod Keys
mod Lease
mod Logs
mod Poller
mod Pricing
mod Processor
mod Receipt
mod Runs
mod System
