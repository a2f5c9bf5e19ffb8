-- ===== src/Blob.antt =====
-- src/dpapi_ng/_blob.py
pub mod KeyIdentifier
pub mod DpapingBlob
