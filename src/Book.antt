-- ===== src/Book.antt =====
-- The order book: include/swirly/elm/Level.hpp, include/swirly/elm/BookSide.hpp,
-- include/swirly/elm/MarketBook.hpp and their sources.
pub mod Level
pub mod Side
pub mod Distinct
pub mod Groups
pub mod Insert
pub mod Sorted
pub mod Join
pub mod Priority
pub mod Leave
pub mod Remove
pub mod Cut
pub mod Reduce
pub mod Market
pub mod Frame
pub mod Whole
pub mod Uncrossed
