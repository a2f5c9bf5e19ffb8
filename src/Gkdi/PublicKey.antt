-- ===== src/Gkdi/PublicKey.antt =====
-- The public key structures of src/dpapi_ng/_gkdi.py: FFCDHParameters, FFCDHKey and ECDHKey.
pub mod Ffcdh
pub mod Ecdh
