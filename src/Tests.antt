-- ===== src/Tests.antt =====
-- Runs of the model at concrete inputs, and the theorems applied there.
mod Scheduling
mod Devices
mod Tables
mod Regions
mod Timing
mod Programs
mod Loading
mod Booting
mod Simulating
mod Spare
