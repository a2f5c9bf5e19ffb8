-- ===== src/Rpc.antt =====
-- src/dpapi_ng/_rpc: the DCE/RPC packets.
pub mod Enums
pub mod Pdu
pub mod Syntax
pub mod Stub
pub mod Bind
pub mod Packet
pub mod Verification
pub mod Action
pub mod Auth
pub mod Client
