-- ===== src/Gkdi.antt =====
-- src/dpapi_ng/_gkdi.py
pub mod Envelope
pub mod KdfParameters
pub mod Context
pub mod Derive
pub mod PublicKey
pub mod Kek
pub mod GetKey
