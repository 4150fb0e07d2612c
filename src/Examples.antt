-- ===== src/Examples.antt =====
-- A small system to run the code on, and the theorems at concrete inputs.
pub mod Sim
mod Pool
mod Database
mod Reactor
mod Reader
mod Runs
mod Outcomes
mod Overlong
mod Visit
mod Crowd
mod Lawful
mod Mishaps
mod Clients
mod Apps
