-- ===== src/Protocol.antt =====
-- internal/protocol: the protocols that publish the simulator's registers.
pub mod Can
pub mod Xn3477
