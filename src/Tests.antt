-- ===== src/Tests.antt =====
-- Runs of the models at concrete inputs, and the theorems at inputs that meet their hypotheses.
mod Sizes
mod Locations
mod Stores
mod Sampling
mod Runtime
mod Servers
mod Application
mod Telemetry
mod Addresses
mod Commands
mod Options
mod Configs
mod Schedules
