-- ===== src/Objectmap.antt =====
-- objectmap/object_attribute_map.go: attribute paths become addresses, and an event becomes the
-- values at these addresses.
pub mod Strings
pub mod TextMap
pub mod Path
pub mod Dictionary
pub mod Address
pub mod Values
pub mod Event
pub mod Pool
