-- ===== src/Examples.antt =====
-- Applications on the framework: examples/.
pub mod Library
pub mod Http
pub mod Todo
pub mod Users
