-- ===== src/Tests.antt =====
-- Runs of the definitions on concrete inputs, and the theorems applied to them.
mod Functions
mod Frames
mod Rtu
mod Server
mod Areas
mod Protocols
mod Battery
mod Simulator
mod Pv
mod AirConditioner
mod Meter
mod Config
mod Weather
mod Site
