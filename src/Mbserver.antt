-- ===== src/Mbserver.antt =====
-- internal/mbserver: the Modbus slave server.
pub mod Crc
pub mod Exceptions
pub mod Frame
pub mod Functions
pub mod Registers
pub mod Server
