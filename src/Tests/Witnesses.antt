-- ===== src/Tests/Witnesses.antt =====
-- The theorems at concrete inputs.
mod Scans
mod Transactions
mod Handles
mod Databases
mod Lives
mod Threads
