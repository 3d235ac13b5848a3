-- ===== src/Shipments.antt =====
-- backend/src/yitu/shipments: the states of a shipment and the services that move it.
pub mod Enums
pub mod StateMachine
pub mod Control
pub mod Transition
pub mod Application
pub mod Reweigh
pub mod Views
