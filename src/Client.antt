-- ===== src/Client.antt =====
-- src/dpapi_ng/_client.py
pub mod KeyCache
pub mod Secret
pub mod Clock
pub mod Protect
pub mod Answers
pub mod Fetch
