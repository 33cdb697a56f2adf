-- ===== src/Domain.antt =====
-- domain/models.py: the records that the components exchange.
pub mod Policy
pub mod Hypothesis
pub mod Cases
pub mod Trades
