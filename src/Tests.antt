-- ===== src/Tests.antt =====
-- Runs of the theorems on concrete inputs, one module for each part of the program.
pub mod Tables
pub mod Cloud
pub mod Admission
pub mod Rounds
pub mod Jobs
pub mod Sweeps
pub mod Http
pub mod Slack
pub mod Settings
pub mod Telemetry
pub mod Start
pub mod Life
pub mod Joint
