-- ===== src/Examples.antt =====
-- The sample programs under examples that have a logic of their own.
pub mod Statics
pub mod Chat
pub mod Stress
pub mod Threads
pub mod Elements
pub mod Many
