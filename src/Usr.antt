-- ===== src/Usr.antt =====
-- User programs of src/usr.
pub mod Grep
