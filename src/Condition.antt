-- ===== src/Condition.antt =====
-- condition/: conditions, operands and rules.
pub mod Operand
pub mod Tree
pub mod Rule
