-- ===== src/Rpc.antt =====
-- src/kvsrv/rpc: the values that servers and clients exchange.
pub mod Context
pub mod Object
pub mod MemberInfo
pub mod Messages
