-- ===== src/Tests.antt =====
-- Runs of the model on the in-memory database, and instances of the theorems.
mod Store
mod Automation
mod Watcher
mod Dlq
mod Workers
mod Idempotency
mod Command
mod Read
mod ReadAll
mod Rounds
mod Library
mod Retries
mod Queries
mod Queues
mod Fields
mod Todo
mod Users
mod Generator
mod Accounts
