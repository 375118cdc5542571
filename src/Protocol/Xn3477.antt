-- ===== src/Protocol/Xn3477.antt =====
-- internal/protocol/xn3477: the BMS registers under the address map of the XN3477 protocol.
pub mod BauRegisters
pub mod BcuRegisters
pub mod Status
pub mod SyncBau
pub mod SyncBcu
pub mod Endpoint
