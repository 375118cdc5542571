-- ===== src/Simulator.antt =====
-- internal/simulator: the simulated devices and their registers.
pub mod Registers
pub mod Float
pub mod Bank
pub mod GridVoltage
pub mod Config
pub mod Battery
pub mod Core
pub mod Pv
pub mod AirConditioner
pub mod Meter
pub mod Weather
pub mod Load
pub mod Environment
pub mod Site
