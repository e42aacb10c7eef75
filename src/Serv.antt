-- ===== src/Serv.antt =====
-- src/fig/Serv.cpp: the service that matches a new order with the book, journals the executions and
-- commits the trades.
pub mod State
pub mod Match
pub mod Commit
pub mod Create
pub mod Fill
pub mod Taking
pub mod Placing
pub mod Outcome
pub mod Standing
pub mod Safety
pub mod Invariant
pub mod Names
pub mod Kept
pub mod Trades
pub mod Positions
pub mod Presence
pub mod Booked
pub mod Opened
pub mod Conserved
pub mod Gains
pub mod NetZero
pub mod Filling
pub mod LastTrade
pub mod Ranked
