-- ===== src/Tests.antt =====
-- Concrete inputs for the theorems, and the theorems at these inputs.
mod Matching
mod Operands
mod Building
mod Patterns
mod Tables
mod Sets
mod Paths
mod Events
mod Expressions
mod Laws
mod Whole
mod Scopes
mod Registering
