-- ===== src/Asn1.antt =====
-- src/dpapi_ng/_asn1.py
pub mod OctetNumber
pub mod Tag
pub mod Header
pub mod Validate
pub mod Integer
pub mod Oid
pub mod Strings
pub mod Reader
pub mod Writer
pub mod Named
