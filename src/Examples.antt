-- ===== src/Examples.antt =====
-- Tests of the model on concrete orders, and the instances at which the theorems are applied.
pub mod Market
mod Components
mod Service
pub mod Records
mod Maintenance
mod Dates
pub mod Requests
mod Parser
