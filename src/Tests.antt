-- ===== src/Tests.antt =====
-- Examples: the theorems at concrete sessions.
mod Data
mod Machines
mod Services
mod Payment
mod Delivery
mod Outbox
mod Cases
mod Grants
mod Prices
