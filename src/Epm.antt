-- ===== src/Epm.antt =====
-- src/dpapi_ng/_epm.py
pub mod Floor
pub mod Tower
pub mod Map
