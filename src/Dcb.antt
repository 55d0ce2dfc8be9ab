-- ===== src/Dcb.antt =====
-- The event store: dcb/dcb.go, dcb/append.go, dcb/read.go.
pub mod Types
pub mod Subsets
pub mod Index
pub mod Append
pub mod Decode
pub mod Read
pub mod ReadAll
pub mod Log
