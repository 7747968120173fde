-- ===== src/Engine.antt =====
-- engine/: the rule engine over the category engine.
pub mod Negation
pub mod Closures
pub mod StringMatcher
pub mod Records
pub mod Rules
pub mod Registry
pub mod Match
pub mod Scope
pub mod Expressions
pub mod Frames
