-- ===== src/Automation.antt =====
-- Automations: automation.go, automation_queue.go, automation_dlq.go and automation_watcher.go.
pub mod Types
pub mod Jobs
pub mod Dlq
pub mod Queue
pub mod Options
pub mod Registry
pub mod Watcher
pub mod Worker
