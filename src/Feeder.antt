-- ===== src/Feeder.antt =====
-- internal/feeder/types.go: one feeder, which submits the price of one token.
pub mod Sign
pub mod Round
pub mod Decimal
pub mod Price
pub mod TwoPhases
pub mod Pieces
pub mod State
pub mod Second
pub mod Trigger
pub mod Handlers
pub mod Tests
