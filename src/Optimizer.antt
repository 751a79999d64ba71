-- ===== src/Optimizer.antt =====
-- Expressions and the rules that rewrite them (src/observer/sql/expr, src/observer/sql/optimizer).
pub mod Expression
pub mod Values
pub mod Conjunction
pub mod Constants
pub mod Decided
pub mod Simplified
mod Tests
