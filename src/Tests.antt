-- ===== src/Tests.antt =====
-- Concrete inputs, at which the theorems are applied.
pub mod Data
pub mod Store
pub mod Setup
pub mod Exchange
