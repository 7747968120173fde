-- ===== src/Cateng.antt =====
-- cateng/: the category engine.
pub mod SliceMap
pub mod MaskArray
pub mod Tables
pub mod Engine
pub mod Builder
